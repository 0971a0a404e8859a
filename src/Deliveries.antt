-- ===== src/Deliveries.antt =====
-- internal/store/connector.go: the queue of deliveries, and internal/delivery/dispatcher.go: what becomes
-- of one attempt. A column of milliseconds is kept as the instant on that millisecond.
pub mod Shape
pub mod Due
pub mod Attempts
pub mod Loop
use marvo.Base.{
  text_lt, ℕ, zero, suc, ◌+◌, ◌-◌, String, Bool, true, false, not, ◌&&◌, ◌||◌, Option, none, some,
  List, [], ◌∷◌, leb, ltb, if◌then◌else◌, ◌==◌, string_eq, nat_eq, exists, keep, max, trim_space,
}
use marvo.Scheduling.{Instant, Duration, truncate}
use marvo.Sql.{Result, ok, err, Exec, Tx, commit}
use marvo.Sql.Rows.{update_where, count_where, find_where, least_where}
use marvo.Sql.Columns.{column_lt, least_due, reached}
use marvo.Schedules.Tables.{valid_activity_id}

pub data Error : Type 0 where
  invalid_connector delivery_not_found corrupt : Error

pub data Status : Type 0 where
  pending sending sent failed cancelled : Status

-- A row of `connectors`.
pub record Connector : Type 0 where
  pub id : String
  pub provider_id : String
  pub name : String
  pub enabled : Bool
  pub config_nonce : String
  pub config_ciphertext : String
  pub created_at : Instant
  pub updated_at : Instant

-- A row of `activity_deliveries`.
pub record Delivery : Type 0 where
  pub id : String
  pub connector_id : String
  pub activity_id : String
  pub status : Status
  pub attempt_count : ℕ
  pub next_attempt_at : Instant
  pub lease_until : Option Instant
  pub last_error : String
  pub sent_at : Option Instant
  pub created_at : Instant
  pub updated_at : Instant

pub record Db : Type 0 where
  pub connectors : List Connector
  pub deliveries : List Delivery

abbrev pub is_pending : Status → Bool
is_pending pending = true
is_pending _ = false

abbrev pub is_sending : Status → Bool
is_sending sending = true
is_sending _ = false

abbrev pub is_failed : Status → Bool
is_failed failed = true
is_failed _ = false

-- JOIN connectors c ON c.id = d.connector_id WHERE c.enabled = 1
abbrev pub is_enabled : List Connector → Delivery → Bool
is_enabled connectors d = exists (λ c. c.id == d.connector_id && c.enabled) connectors

abbrev pub is_due : Instant → Delivery → Bool
is_due now d =
    is_pending d.status && leb d.next_attempt_at now
    || is_sending d.status && reached d.lease_until now

-- CASE WHEN d.status = 'sending' THEN d.lease_until ELSE d.next_attempt_at END
abbrev pub due_at : Delivery → Option Instant
due_at d = if is_sending d.status then d.lease_until else some d.next_attempt_at

abbrev pub delivery_order : Delivery → Delivery → Bool
delivery_order a b =
    column_lt (due_at a) (due_at b)
    || not (column_lt (due_at b) (due_at a))
      && (ltb a.created_at b.created_at || a.created_at == b.created_at && text_lt a.id b.id)

abbrev pub claimed : Instant → Duration → Delivery → Delivery
claimed now lease d = record d {
  status = sending;
  attempt_count = d.attempt_count + 1;
  lease_until = some (truncate (now + lease));
  updated_at = truncate now;
}

-- WHERE id = ? AND (the delivery is due)
abbrev pub due_as : Instant → String → Delivery → Bool
due_as now id d = d.id == id && is_due now d

-- Whether a claimed row can be scanned: `scanClaimedDelivery` decrypts the connector's configuration with
-- the AES-GCM of Go's library, and decodes it.
module _ (opens : Delivery → Bool) where
  unfoldable pub scanned : Option Delivery → Db → Result Error (Option Delivery × Db)
  scanned none db = err delivery_not_found
  scanned (some d) db = if opens d then ok (some d, db) else err corrupt

  unfoldable pub claim_row : Instant → Duration → Option Delivery → Tx Db Error (Option Delivery)
  unfolding scanned
  claim_row now lease none db = ok (none, db)
  claim_row now lease (some d) db =
      if count_where (due_as (truncate now) d.id) db.deliveries == 1
      then (let rows =
            update_where (due_as (truncate now) d.id) (claimed now lease) db.deliveries in
          scanned (find_where (λ r. r.id == d.id) rows) (record db { deliveries = rows }))
      else ok (none, db)

  unfoldable pub claim_due : Instant → Duration → Exec Db Error (Option Delivery)
  unfolding claim_row
  claim_due now lease = commit (λ db.
      claim_row now lease
        (least_where (λ d. is_enabled db.connectors d && is_due (truncate now) d) delivery_order
          db.deliveries)
        db)

-- status IN ('pending', 'sending'), at an enabled connector
abbrev pub waits : List Connector → Delivery → Bool
waits connectors d = is_enabled connectors d && (is_pending d.status || is_sending d.status)

unfoldable pub next_due : Db → Option Instant
next_due db = least_due due_at (keep (waits db.connectors) db.deliveries)

abbrev one_row : ℕ → Result Error (Unit {0})
one_row n = if n == 1 then ok tt else err delivery_not_found

-- WHERE id = ? AND status = 'sending'
abbrev pub sends_as : String → Delivery → Bool
sends_as id d = d.id == id && is_sending d.status

unfoldable pub mark_sent : String → Instant → Exec Db Error (Unit {0})
mark_sent id now db = (
  one_row (count_where (sends_as id) db.deliveries),
  record db {
    deliveries =
        update_where (sends_as id)
          (λ d. record d {
            status = sent;
            lease_until = none;
            last_error = "";
            sent_at = some (truncate now);
            updated_at = truncate now;
          })
          db.deliveries;
  },
)

-- The first characters of a text, as many as `limit`.
unfoldable pub truncate_runes : ℕ → String → String
truncate_runes zero value = String.[]
truncate_runes (suc n) String.[] = String.[]
truncate_runes (suc n) (String.◌∷◌ c rest) = String.◌∷◌ c (truncate_runes n rest)

abbrev pub max_delivery_error_runes : ℕ
max_delivery_error_runes = 1000

unfoldable pub mark_failed : String → Instant → Instant → Bool → String → Exec Db Error (Unit {0})
unfolding truncate_runes
mark_failed id now next final message db = (
  one_row (count_where (sends_as id) db.deliveries),
  record db {
    deliveries =
        update_where (sends_as id)
          (λ d. record d {
            status = if final then failed else pending;
            next_attempt_at = truncate next;
            lease_until = none;
            last_error = truncate_runes max_delivery_error_runes (trim_space message);
            updated_at = truncate now;
          })
          db.deliveries;
  },
)

-- The SET list of `RetryFailed` and `RetryConnectorFailures`.
abbrev pub renewed : Instant → Delivery → Delivery
renewed now d = record d {
  status = pending;
  attempt_count = 0;
  next_attempt_at = truncate now;
  lease_until = none;
  last_error = "";
  sent_at = none;
  updated_at = truncate now;
}

unfoldable pub retry_failed : String → Instant → Exec Db Error Bool
retry_failed id now db =
    if valid_activity_id id
    then (
      ok (ltb 0 (count_where (λ d. d.id == id && is_failed d.status) db.deliveries)),
      record db {
        deliveries =
            update_where (λ d. d.id == id && is_failed d.status) (renewed now) db.deliveries;
      },
    )
    else (err invalid_connector, db)

unfoldable pub retry_connector_failures : String → Instant → Exec Db Error ℕ
retry_connector_failures id now db =
    if valid_activity_id id
    then (
      ok (count_where (λ d. d.connector_id == id && is_failed d.status) db.deliveries),
      record db {
        deliveries =
            update_where (λ d. d.connector_id == id && is_failed d.status) (renewed now)
              db.deliveries;
      },
    )
    else (err invalid_connector, db)
