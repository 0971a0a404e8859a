-- ===== src/Deliveries/Shape.antt =====
-- The rows of the delivery queue have their shape at all times, and what a claim hands out.
use marvo.Base.{
  ℕ, ◌≡◌, ◌≤◌, refl, sym, ap, subst, arith, String, Bool, true, false, ◌&&◌, Option, none, some,
  List, is_some, if◌then◌else◌, if-elim, ◌==◌, string_eq, nat_eq, Bool-cases, inl, inr, text_iff,
}
use marvo.Scheduling.{Instant, Duration, truncate}
use marvo.Sql.{Result, ok, err, committed}
use marvo.Sql.Rows.{
  All, All-update_where, update_where, count_where, find_where, least_where,
  find_where-update_where,
}
use marvo.Sql.Keeps.{Sound, commit-Keeps, Keeps}
use marvo.Schedules.Tables.{valid_activity_id}
use marvo.Deliveries.{
  Error, Status, pending, sending, failed, Delivery, Db, is_enabled, is_due, is_failed,
  delivery_order, claimed, due_as, scanned, claim_row, claim_due, mark_sent, mark_failed, sends_as,
  renewed, retry_failed, retry_connector_failures,
}

-- A delivery has a lease exactly while it is being sent, and has counted the attempt by then.
abbrev pub Shape : Status → Delivery → Type 0
Shape sending d = (is_some d.lease_until ≡ true) × (1 ≤ d.attempt_count)
Shape _ d = d.lease_until ≡ none

abbrev pub IsDelivery : Delivery → Type 0
IsDelivery d = Shape d.status d

abbrev pub IsQueue : Db → Type 0
IsQueue db = All IsDelivery db.deliveries

closed : (b : Bool) (d : Delivery) → d.lease_until ≡ none → Shape (if b then failed else pending) d
closed true d h = h
closed false d h = h

scanned-Sound :
    (opens : Delivery → Bool) (o : Option Delivery) (db : Db)
    → IsQueue db
    → Sound IsQueue (scanned opens o db)
unfolding scanned
scanned-Sound opens none db h = tt
scanned-Sound opens (some d) db h = if-elim (Sound IsQueue) (opens d) _ _ h tt

claim_row-Keeps :
    (opens : Delivery → Bool) (now : Instant) (lease : Duration) (o : Option Delivery)
    → Keeps IsQueue (claim_row opens now lease o)
unfolding claim_row
claim_row-Keeps opens now lease none db h = h
claim_row-Keeps opens now lease (some d) db h =
    if-elim (Sound IsQueue) (count_where (due_as (truncate now) d.id) db.deliveries == 1) _ _
      (scanned-Sound opens _ _ (
        All-update_where IsDelivery (due_as (truncate now) d.id) (claimed now lease) db.deliveries
          (λ x e s. (refl, omega arith)) h))
      h

-- Claiming, finishing, failing and retrying deliveries keep their shape, whatever the call returns.
pub IsQueue-kept :
    (opens : Delivery → Bool) (id message : String) (now next : Instant) (lease : Duration)
    (final : Bool) (db : Db)
    → IsQueue db
    → IsQueue (claim_due opens now lease db).1
      × IsQueue (mark_sent id now db).1
      × IsQueue (mark_failed id now next final message db).1
      × IsQueue (retry_failed id now db).1
      × IsQueue (retry_connector_failures id now db).1
unfolding claim_due mark_sent mark_failed retry_failed retry_connector_failures
IsQueue-kept opens id message now next lease final db h = (
  commit-Keeps IsQueue _ db
      (λ s k.
        claim_row-Keeps opens now lease
          (least_where (λ d. is_enabled s.connectors d && is_due (truncate now) d) delivery_order
            s.deliveries)
          s k)
      h,
  All-update_where IsDelivery (sends_as id) _ db.deliveries (λ x e s. refl) h,
  All-update_where IsDelivery (sends_as id) _ db.deliveries (λ x e s. closed final _ refl) h,
  if-elim (λ (out : Result Error Bool × Db). IsQueue out.1) (valid_activity_id id) _ _
      (All-update_where IsDelivery (λ d. d.id == id && is_failed d.status) (renewed now)
        db.deliveries (λ x e s. refl) h)
      h,
  if-elim (λ (out : Result Error ℕ × Db). IsQueue out.1) (valid_activity_id id) _ _
      (All-update_where IsDelivery (λ d. d.connector_id == id && is_failed d.status) (renewed now)
        db.deliveries (λ x e s. refl) h)
      h,
)

-- What a claim that hands out a delivery returns.
abbrev Claims : Result Error (Option Delivery × Db) → Type 0
Claims (ok (some d, db)) =
    (d.status ≡ sending)
    × (1 ≤ d.attempt_count)
    × (find_where (λ r. r.id == d.id) db.deliveries ≡ some d)
Claims (ok (none, db)) = Unit
Claims (err e) = Unit

scanned-Claims :
    (opens : Delivery → Bool) (o : Option Delivery) (db : Db)
    → ((d : Delivery)
        → o ≡ some d
        → (d.status ≡ sending)
          × (1 ≤ d.attempt_count)
          × (find_where (λ r. r.id == d.id) db.deliveries ≡ some d))
    → Claims (scanned opens o db)
unfolding scanned
scanned-Claims opens none db h = tt
scanned-Claims opens (some d) db h = if-elim Claims (opens d) _ _ (h d refl) tt

changed-Claims :
    (id : String) (now : Instant) (lease : Duration) (rows : List Delivery) (y : Delivery)
    → count_where (λ r. r.id == id) rows ≤ 1
    → count_where (due_as (truncate now) id) rows ≡ 1
    → find_where
        (λ r. r.id == id)
        (update_where (due_as (truncate now) id) (claimed now lease) rows)
      ≡ some y
    → (y.status ≡ sending) × (1 ≤ y.attempt_count) × (y.id ≡ id)
changed-Claims id now lease rows y unique one found =
    let (x, due, same) =
      find_where-update_where (λ r. r.id == id) (due_as (truncate now) id) (claimed now lease) rows
        y (λ r h. ground arith) (λ r. refl) unique one found in
    (
      subst (λ r. r.status ≡ sending) same refl,
      subst (λ r. 1 ≤ r.attempt_count) same (omega arith),
      subst (λ r. r.id ≡ id) same (ground (arith, text_iff x.id id)),
    )

claim_row-Claims :
    (opens : Delivery → Bool) (now : Instant) (lease : Duration) (o : Option Delivery) (db : Db)
    → ((id : String) → count_where (λ r. r.id == id) db.deliveries ≤ 1)
    → Claims (claim_row opens now lease o db)
unfolding claim_row
claim_row-Claims opens now lease none db unique = tt
claim_row-Claims opens now lease (some d) db unique =
    elim (Bool-cases (count_where (due_as (truncate now) d.id) db.deliveries == 1)) [
      | inl e ↦ rw e (
          scanned-Claims opens _ _ (λ y found.
            let (status, attempt, same) =
              changed-Claims d.id now lease db.deliveries y (unique d.id) (ground arith) found in
            (
              status,
              attempt,
              subst
                  (λ id.
                    find_where (λ r. r.id == id)
                      (update_where (due_as (truncate now) d.id) (claimed now lease) db.deliveries)
                    ≡ some y)
                  (sym same) found,
            )))
      | inr e ↦ rw e tt
    ]

committed-Claims :
    (r : Result Error (Option Delivery × Db)) (db db' : Db) (d : Delivery)
    → Claims r
    → committed db r ≡ (ok (some d), db')
    → (d.status ≡ sending)
      × (1 ≤ d.attempt_count)
      × (find_where (λ r. r.id == d.id) db'.deliveries ≡ some d)
committed-Claims (ok (some q, s)) db db' d h e =
    let same : q ≡ d = cc (ap (λ out. out.0) e) in
    let tables : s ≡ db' = ap (λ out. out.1) e in
    (
      subst (λ k. k.status ≡ sending) same h.0,
      subst (λ k. 1 ≤ k.attempt_count) same h.1,
      subst (λ k. find_where (λ r. r.id == k.id) db'.deliveries ≡ some k) same
          (subst (λ k. find_where (λ r. r.id == q.id) k.deliveries ≡ some q) tables h.2),
    )
committed-Claims (ok (none, s)) db db' d h e = cc (ap (λ out. out.0) e)
committed-Claims (err x) db db' d h e = cc (ap (λ out. out.0) e)

-- A delivery that a claim hands out is being sent, has counted this attempt, and is what the table
-- holds under its id.
pub claim_due-sending :
    (opens : Delivery → Bool) (now : Instant) (lease : Duration) (db db' : Db) (d : Delivery)
    → ((id : String) → count_where (λ r. r.id == id) db.deliveries ≤ 1)
    → claim_due opens now lease db ≡ (ok (some d), db')
    → (d.status ≡ sending)
      × (1 ≤ d.attempt_count)
      × (find_where (λ r. r.id == d.id) db'.deliveries ≡ some d)
unfolding claim_due
claim_due-sending opens now lease db db' d unique =
    committed-Claims
      (claim_row opens now lease
        (least_where (λ d. is_enabled db.connectors d && is_due (truncate now) d) delivery_order
          db.deliveries)
        db)
      db db' d (claim_row-Claims opens now lease _ db unique)
