-- ===== src/RabbitMqTopology/Ladder.antt =====
-- src/RabbitMQTopology.cpp: the retry ladder is declared in full.
use mathlib.Core.List.{Memᴰ}
use mathlib.Core.List.Memᴰ.{append_left, append_right}
use distributed_notification.Base.{
  ℕ, zero, suc, ◌+◌, ◌≤◌, ◌<◌, length, ◌≡◌, refl, subst, ℤ, pos, true, some, List, [], ◌∷◌, arith,
  get_elem?,
}
use distributed_notification.Enums.{Channel, email, sms, push}
use distributed_notification.Config.{Config}
use distributed_notification.RabbitMqTopology.{
  Declaration, queue, binding, exchange_name, routing_key, main_queue, retry_queue, retry_args,
  declare_rungs, declare_channel, declare_all,
}

in_rungs :
    (c : Channel) (start i : ℕ) (ttls : List ℤ) (ttl : ℤ)
    → get_elem? ttls i ≡ some ttl
    → Memᴰ
        (queue (retry_queue c (pos (start + i))) true (retry_args c ttl))
        (declare_rungs c start ttls)
unfolding declare_rungs
in_rungs c start i [] ttl h = cc
in_rungs c start zero (x ∷ ttls) ttl h =
    let at : start + 0 ≡ start = omega arith in
    let same : ttl ≡ x = ground (arith, h) in Memᴰ.head (rw (at, same))
in_rungs c start (suc i) (x ∷ ttls) ttl h =
    let at : start + 1 + i ≡ start + suc i = omega arith in
    Memᴰ.tail (
      subst
        (λ (k : ℕ).
          Memᴰ (queue (retry_queue c (pos k)) true (retry_args c ttl))
            (declare_rungs c (start + 1) ttls))
        at (in_rungs c (start + 1) i ttls ttl h))

in_all :
    (config : Config) (c : Channel) (d : Declaration)
    → Memᴰ d (declare_channel config c)
    → Memᴰ d (declare_all config)
unfolding declare_all
in_all config email d m = Memᴰ.tail (append_left _ m)
in_all config sms d m = Memᴰ.tail (append_right _ (append_left _ m))
in_all config push d m = Memᴰ.tail (append_right _ (append_right _ m))

-- For every channel and every configured delay, the i-th from 0, the topology declares a durable
-- retry queue with the number i + 1, that delay as its TTL, and the exchange and the routing key of
-- the channel for its dead letters; and it binds that exchange and key to the main queue of the
-- channel.
retry_declared :
    (config : Config) (c : Channel) (i : ℕ) (ttl : ℤ)
    → get_elem? config.retry_delays_ms i ≡ some ttl
    → Memᴰ (queue (retry_queue c (pos (1 + i))) true (retry_args c ttl)) (declare_all config)
      × Memᴰ (binding exchange_name (main_queue c) (routing_key c)) (declare_all config)
unfolding declare_channel
retry_declared config c i ttl h = (
  in_all config c _
      (Memᴰ.tail (Memᴰ.tail (append_left _ (in_rungs c 1 i config.retry_delays_ms ttl h)))),
  in_all config c _ (Memᴰ.tail (Memᴰ.head refl)),
)

-- Each main queue is bound to the exchange by the routing key of its channel.
pub main_bound :
    (config : Config) (c : Channel)
    → Memᴰ (binding exchange_name (main_queue c) (routing_key c)) (declare_all config)
unfolding declare_channel
main_bound config c = in_all config c _ (Memᴰ.tail (Memᴰ.head refl))

-- The maximum of retries is the number max, there is a rung for each, and numbers up to max + 1
-- are in the range of `int`.
pub record IsLadder (config : Config) (max : ℕ) : Type 0 where
  pub maximum : config.max_retries ≡ pos max
  pub rungs : max ≤ length config.retry_delays_ms
  pub in_int : max + 1 < 2147483648

get_elem?-lt {ℓ} :
    {A : Type ℓ} (xs : List A) (i : ℕ) → i < length xs → (x : A) × (get_elem? xs i ≡ some x)
get_elem?-lt [] i h = absurd (omega arith)
get_elem?-lt (x ∷ xs) zero h = (x, refl)
get_elem?-lt (x ∷ xs) (suc i) h = get_elem?-lt xs i (omega arith)

-- With i + 1 delays or more, the retry queue i + 1 of a channel is declared and its dead letters
-- have a way to the main queue.
pub rung_declared :
    (config : Config) (c : Channel) (i : ℕ)
    → i < length config.retry_delays_ms
    → (ttl : ℤ) × Memᴰ
        (queue (retry_queue c (pos (suc i))) true (retry_args c ttl))
        (declare_all config)
      × Memᴰ (binding exchange_name (main_queue c) (routing_key c)) (declare_all config)
rung_declared config c i h =
    let (ttl, e) = get_elem?-lt config.retry_delays_ms i h in
    let (declared, bound) = retry_declared config c i ttl e in
    let one : 1 + i ≡ suc i = omega arith in
    (
      ttl,
      subst
          (λ (k : ℕ).
            Memᴰ (queue (retry_queue c (pos k)) true (retry_args c ttl)) (declare_all config))
          one declared,
      bound,
    )
