-- ===== src/RabbitMqTopology/Names.antt =====
-- src/RabbitMQTopology.cpp: no other queue has the name of a dead-letter queue.
use text.Mathlib.Text.{starts_with}
use text.Mathlib.TextPositions.{starts_with-append}
use text.Mathlib.TextLemmas.{append_assoc}
use distributed_notification.Base.{
  ℤ, Bool, true, false, String, ◌<>◌, to_string, str_eq, eq_iff, ◌||◌, ◌≡◌, refl, ap, ◌∙◌, subst,
  Bool-cases, inl, inr,
}
use distributed_notification.Enums.{Channel, email, sms, push}
use distributed_notification.RabbitMqTopology.{channel_slug, main_queue, retry_queue, dlq}

unfoldable pub is_dlq : String → Bool
is_dlq q = str_eq q (dlq email) || str_eq q (dlq sms) || str_eq q (dlq push)

-- Two texts of which one only starts in this way.
differ : (p s t : String) → starts_with s p ≡ true → starts_with t p ≡ false → str_eq s t ≡ false
differ p s t does lacks = elim (Bool-cases (str_eq s t)) [
  | inl same ↦
      let e : starts_with s p ≡ starts_with t p = ap (λ u. starts_with u p) ((eq_iff s t).0 same) in
      absurd (cc)
  | inr other ↦ other
]

pub is_dlq-dlq : (c : Channel) → is_dlq (dlq c) ≡ true
unfolding is_dlq dlq
is_dlq-dlq email = refl
is_dlq-dlq sms = refl
is_dlq-dlq push = refl

pub is_dlq-main_queue : (c : Channel) → is_dlq (main_queue c) ≡ false
unfolding is_dlq dlq main_queue
is_dlq-main_queue email = refl
is_dlq-main_queue sms = refl
is_dlq-main_queue push = refl

rung_prefix : Channel → String
rung_prefix c = "q." <> (channel_slug c <> ".retry.")

retry_starts : (c : Channel) (i : ℤ) → starts_with (retry_queue c i) (rung_prefix c) ≡ true
unfolding retry_queue rung_prefix
retry_starts c i =
    subst (λ q. starts_with q (rung_prefix c) ≡ true)
      (append_assoc "q." (channel_slug c <> ".retry.") (to_string i)
        ∙ ap (λ r. "q." <> r) (append_assoc (channel_slug c) ".retry." (to_string i)))
      (starts_with-append (rung_prefix c) (to_string i))

no_dlq_starts : (c d : Channel) → starts_with (dlq d) (rung_prefix c) ≡ false
unfolding rung_prefix dlq
no_dlq_starts email email = refl
no_dlq_starts email sms = refl
no_dlq_starts email push = refl
no_dlq_starts sms email = refl
no_dlq_starts sms sms = refl
no_dlq_starts sms push = refl
no_dlq_starts push email = refl
no_dlq_starts push sms = refl
no_dlq_starts push push = refl

pub is_dlq-retry_queue : (c : Channel) (i : ℤ) → is_dlq (retry_queue c i) ≡ false
unfolding is_dlq
is_dlq-retry_queue c i =
    let apart : (d : Channel) → str_eq (retry_queue c i) (dlq d) ≡ false = λ d.
      differ (rung_prefix c) (retry_queue c i) (dlq d) (retry_starts c i) (no_dlq_starts c d) in
    rw (apart email, apart sms, apart push) refl
