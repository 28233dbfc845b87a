-- ===== src/System/Renumbering.antt =====
-- src/Worker.cpp: the message that a worker parks for the next attempt is well made again.
use distributed_notification.Base.{
  ℕ, suc, ◌+◌, ◌≤◌, ◌<◌, ◌≡◌, ap, ◌∙◌, subst, ℤ, pos, suc_ℤ, gtb_ℤ, false, arith,
}
use distributed_notification.Enums.{Channel}
use distributed_notification.Config.{Config}
use distributed_notification.Platform.{Platform, IsJson, ok}
use distributed_notification.Message.{Task, decode, message}
use distributed_notification.Message.RoundTrip.{decode-message}
use distributed_notification.Provider.{Provider}
use distributed_notification.RabbitMqTopology.Broker.{Broker}
use distributed_notification.RabbitMqTopology.Ladder.{IsLadder}
use distributed_notification.System.Carrying.{IsMade}

module _ (P : Platform) (json : IsJson P) (broker : Broker) (n : ℕ)
    (providers : Channel → Provider P) (config : Config) (max : ℕ) (ladder : IsLadder config max)
    (body : P.Body) (made : IsMade P broker n providers config max body) where
  abbrev pub next_task : Task
  next_task = record made.task { attempt_number = suc_ℤ made.task.attempt_number }

  -- When the attempts are not exhausted, this is not the last place.
  pub place_low : gtb_ℤ made.task.attempt_number config.max_retries ≡ false → suc made.place ≤ max
  place_low again =
      let e : gtb_ℤ (pos (suc made.place)) (pos max) ≡ false =
        subst (λ (i : ℤ). gtb_ℤ (pos (suc made.place)) i ≡ false) ladder.maximum
          (subst (λ (i : ℤ). gtb_ℤ i config.max_retries ≡ false) made.number again) in
      ground (arith, e)

  pub next_number : suc_ℤ made.task.attempt_number ≡ pos (suc (suc made.place))
  next_number =
      let one : suc made.place + 1 ≡ suc (suc made.place) = omega arith in
      ap suc_ℤ made.number ∙ ap pos one

  pub next_decodes :
      gtb_ℤ made.task.attempt_number config.max_retries ≡ false
      → decode P (message P next_task) ≡ ok next_task
  next_decodes again =
      let low = place_low again in
      let int : suc (suc made.place) < 2147483648 = omega (arith, low, ladder.in_int) in
      decode-message P json next_task (rw next_number int) made.byte

  pub next-IsMade :
      gtb_ℤ made.task.attempt_number config.max_retries ≡ false
      → IsMade P broker n providers config max (message P next_task)
  next-IsMade again = record {
    task = next_task;
    place = suc made.place;
    decoded = next_decodes again;
    number = next_number;
    low = place_low again;
    byte = made.byte;
  }
