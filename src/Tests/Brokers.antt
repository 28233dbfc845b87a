-- ===== src/Tests/Brokers.antt =====
-- A broker that forwards exactly as the declarations say. It behaves as documented.
use mathlib.Core.List.{Memᴰ}
use distributed_notification.Base.{
  Bool, false, ◌||◌, Bool-cases, inl, inr, arith, ◌≡◌, refl, subst, ℤ, true, ◌&&◌, String, List, [],
  ◌∷◌, str_eq, eq_iff, if◌then◌else◌,
}
use distributed_notification.RabbitMqTopology.{
  Argument, Declaration, exchange, queue, binding, text, number,
}
use distributed_notification.RabbitMqTopology.Broker.{Broker, IsBroker, IsExact, bound_queues}

abbrev has_queue : List Declaration → String → Bool
has_queue [] key = false
has_queue (exchange name type durable ∷ ds) key = has_queue ds key
has_queue (queue q durable args ∷ ds) key = str_eq q key || has_queue ds key
has_queue (binding name q k ∷ ds) key = has_queue ds key

unfoldable pub all_routes : List Declaration → String → String → List String
all_routes ds ex key =
    if str_eq ex "" then (if has_queue ds key then key ∷ [] else []) else bound_queues ex key ds

same_self : (s : String) → str_eq s s ≡ true
same_self s = (eq_iff s s).1 refl

declared_queue :
    (ds : List Declaration) (q : String) (durable : Bool) (args : List (String × Argument))
    → Memᴰ (queue q durable args) ds
    → has_queue ds q ≡ true
declared_queue [] q durable args m = elim m [ ]
declared_queue (d ∷ ds) q durable args (Memᴰ.head e) =
    subst (λ (x : Declaration). has_queue (x ∷ ds) q ≡ true) e (rw (same_self q) refl)
declared_queue (exchange name type durable ∷ ds) q d args (Memᴰ.tail m) =
    declared_queue ds q d args m
declared_queue (queue r durable rest ∷ ds) q d args (Memᴰ.tail m) =
    let h = declared_queue ds q d args m in ground (arith, h)
declared_queue (binding name r k ∷ ds) q d args (Memᴰ.tail m) = declared_queue ds q d args m

bound_queue :
    (ds : List Declaration) (ex key q : String)
    → Memᴰ (binding ex q key) ds
    → Memᴰ q (bound_queues ex key ds)
bound_queue [] ex key q m = elim m [ ]
bound_queue (d ∷ ds) ex key q (Memᴰ.head e) =
    subst (λ (x : Declaration). Memᴰ q (bound_queues ex key (x ∷ ds))) e
      (rw (same_self ex, same_self key) (Memᴰ.head refl))
bound_queue (exchange name type durable ∷ ds) ex key q (Memᴰ.tail m) = bound_queue ds ex key q m
bound_queue (queue r durable rest ∷ ds) ex key q (Memᴰ.tail m) = bound_queue ds ex key q m
bound_queue (binding name r k ∷ ds) ex key q (Memᴰ.tail m) =
    let rest = bound_queue ds ex key q m in
    elim (Bool-cases (str_eq name ex && str_eq k key)) [
      | inl fits ↦ rw fits (Memᴰ.tail rest)
      | inr other ↦ rw other rest
    ]

abbrev pub simple : Broker
simple = record {
  DeadLetters = λ ds q main.
      (exchange key : String) × (ttl : ℤ) × Memᴰ
        (queue q true (
          ("x-message-ttl", number ttl)
          ∷ ("x-dead-letter-exchange", text exchange)
          ∷ ("x-dead-letter-routing-key", text key)
          ∷ []))
        ds
      × Memᴰ (binding exchange main key) ds;
  routes = all_routes;
}

pub simple-IsBroker : IsBroker simple
unfolding all_routes
simple-IsBroker = record {
  expires = λ ds q exchange key main ttl h k. (exchange, key, ttl, h, k);
  by_name = λ ds q durable args m. rw (declared_queue ds q durable args m) (Memᴰ.head refl);
  bound = λ ds exchange key q other m. rw other (bound_queue ds exchange key q m);
}

pub simple-IsExact : (ds : List Declaration) → IsExact simple ds
unfolding all_routes
simple-IsExact ds = record {
  only =
      λ q main h. let (ex, key, ttl, m, k) = h in (true, _, text ex, m, Memᴰ.tail (Memᴰ.head refl));
  once = λ q durable args m. rw (declared_queue ds q durable args m) refl;
  by_key = λ exchange key other. rw other refl;
}
