-- ===== src/Deliveries/Due.antt =====
-- When the dispatcher has to look at the deliveries of a user again.
use marvo.Base.{
  ◌≡◌, refl, ◌∙◌, arith, Bool, ◌&&◌, ◌||◌, Option, some, List, [], ◌∷◌, leb, if◌then◌else◌, exists,
  keep,
}
use marvo.Scheduling.{Instant}
use marvo.Sql.Columns.{reached, reached-least_due, exists-cong}
use marvo.Deliveries.{
  Status, pending, sending, sent, failed, cancelled, Delivery, Db, is_enabled, is_due, is_pending,
  is_sending, next_due, due_at, waits,
}

exists-keep :
    (p q : Delivery → Bool) (xs : List Delivery)
    → exists q (keep p xs) ≡ exists (λ x. p x && q x) xs
exists-keep p q [] = refl
exists-keep p q (x ∷ xs) = ground (arith, exists-keep p q xs)

-- What a delivery waits for is what makes it due.
waits_for_due :
    (enabled : Bool) (s : Status) (next now : Instant) (lease : Option Instant)
    → ((enabled && (is_pending s || is_sending s))
        && reached (if is_sending s then lease else some next) now)
      ≡ (enabled && (is_pending s && leb next now || is_sending s && reached lease now))
waits_for_due enabled pending next now lease = ground arith
waits_for_due enabled sending next now lease = ground arith
waits_for_due enabled sent next now lease = ground arith
waits_for_due enabled failed next now lease = ground arith
waits_for_due enabled cancelled next now lease = ground arith

-- The time that the dispatcher is told to look again has come exactly if there is a delivery of an
-- enabled connector to claim.
pub next_due_iff :
    (db : Db) (now : Instant)
    → reached (next_due db) now
      ≡ exists (λ d. is_enabled db.connectors d && is_due now d) db.deliveries
unfolding next_due
next_due_iff db now =
    reached-least_due due_at (keep (waits db.connectors) db.deliveries) now
    ∙ exists-keep (waits db.connectors) (λ d. reached (due_at d) now) db.deliveries
    ∙ exists-cong _ (λ d. is_enabled db.connectors d && is_due now d) db.deliveries
        (λ d.
          waits_for_due (is_enabled db.connectors d) d.status d.next_attempt_at now d.lease_until)
