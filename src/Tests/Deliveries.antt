-- ===== src/Tests/Deliveries.antt =====
-- internal/store/connector.go and internal/delivery/dispatcher.go at concrete inputs.
use marvo.Base.{
  ◌≡◌, ◌≤◌, refl, arith, String, Bool, true, false, none, some, [], ◌∷◌, ◌==◌, string_eq, length,
  lookup, insert, exists,
}
use marvo.Scheduling.{Instant, Duration}
use marvo.Sql.{ok}
use marvo.Schedules.Tables.{all_hex}
use marvo.Sql.Rows.{count_where, find_where, least_where, update_where}
use marvo.Deliveries.{
  Connector, Delivery, Db, pending, claimed, claim_due, mark_sent, mark_failed, retry_failed,
  retry_connector_failures,
}
use marvo.Deliveries.Shape.{IsQueue, IsQueue-kept}
use marvo.Deliveries.Loop.{
  Loop, new_loop, wake, round, drain, dispatch, dispatch_over, finished, valid_user_id,
}
use marvo.Deliveries.Loop.Capacity.{Reach, running_bound}

abbrev mail : String
mail = "0123456789abcdef0123456789abcdef"

abbrev letter : String
letter = "1123456789abcdef0123456789abcdef"

abbrev reason : String
reason = "busy"

abbrev now : Instant
now = 5000000

abbrev minute : Duration
minute = 60000000000

abbrev waiting_letter : Delivery
waiting_letter = record {
  id = letter;
  connector_id = mail;
  activity_id = letter;
  status = pending;
  attempt_count = 0;
  next_attempt_at = 4000000;
  lease_until = none;
  last_error = reason;
  sent_at = none;
  created_at = 0;
  updated_at = 0;
}

abbrev mailer : Connector
mailer = record {
  id = mail;
  provider_id = "mail";
  name = "Mail";
  enabled = true;
  config_nonce = "n";
  config_ciphertext = "c";
  created_at = now;
  updated_at = now;
}

abbrev queue : Db
queue = record { connectors = mailer ∷ []; deliveries = waiting_letter ∷ [] }

abbrev sent_letter : Delivery
sent_letter = claimed now minute waiting_letter

abbrev claimed_queue : Db
claimed_queue = record { connectors = mailer ∷ []; deliveries = sent_letter ∷ [] }

abbrev readable : Delivery → Bool
readable d = true

claims_letter : claim_due readable now minute queue ≡ (ok (some sent_letter), claimed_queue)
unfolding claim_due least_where count_where find_where update_where
claims_letter = refl

one_letter : (id : String) → count_where (λ r. r.id == id) queue.deliveries ≤ 1
unfolding count_where
one_letter id = ground arith

IsQueue-kept_example :
    IsQueue (claim_due readable now minute queue).1
    × IsQueue (mark_sent letter now queue).1
    × IsQueue (mark_failed letter now now false reason queue).1
    × IsQueue (retry_failed letter now queue).1
    × IsQueue (retry_connector_failures letter now queue).1
IsQueue-kept_example = IsQueue-kept readable letter reason now now minute false queue (refl, tt)

abbrev alice : String
alice = "0123456789abcdef0123"

abbrev clock : String → Instant
clock user = now

abbrev started : Loop
started = round clock now (wake alice (new_loop 4))

starts : exists (λ v. v == alice) started.workers ≡ true
unfolding round dispatch dispatch_over drain insert lookup wake new_loop valid_user_id all_hex
starts = refl

-- The worker of a user that was woken is done.
running_bound_example :
    (length (finished alice none started).workers ≤ (finished alice none started).worker_limit)
    × (2 ≤ (finished alice none started).worker_limit)
    × ((finished alice none started).worker_limit ≤ 8)
    × ((user : String) → count_where (λ u. u == user) (finished alice none started).workers ≤ 1)
running_bound_example = running_bound (finished alice none started) (
    Reach.done alice none started
      (Reach.again clock now (wake alice (new_loop 4))
        (Reach.woken alice (new_loop 4) (Reach.begin 4)))
      starts)

-- The user is woken while its worker runs.
abbrev busy : Loop
busy = record {
  pending = alice ∷ [];
  due = (alice, now) ∷ [];
  running = (alice, true) ∷ [];
  workers = alice ∷ [];
  worker_limit = 2;
}

-- It is not worked for a second time at once.
busy_waits : (round clock now busy).workers ≡ alice ∷ []
unfolding round dispatch dispatch_over drain insert lookup
busy_waits = refl
