-- ===== src/Sql.antt =====
-- How the stores of internal/store use their SQLite database: rows are lists in the order of their insertion, a statement
-- is a pass over them, and a transaction leaves the tables as they were unless it commits. Failures of the
-- driver (I/O, a cancelled context) are not modelled: they return the driver's error and change nothing.
pub mod Rows
pub mod Keeps
pub mod Fails
pub mod Columns
pub mod Ordering
use marvo.Base.{ℕ, Bool, true, false}

pub data Result {ℓ} (E : Type 0) (A : Type ℓ) : Type ℓ where
  ok : A → Result E A
  err : E → Result E A

-- A transaction: the tables that it commits, or the error after which it is rolled back.
abbrev pub Tx : Type 0 → Type 0 → Type 0 → Type 0
Tx S E A = S → Result E (A × S)

-- A method: its result, and the tables that it leaves.
abbrev pub Exec : Type 0 → Type 0 → Type 0 → Type 0
Exec S E A = S → Result E A × S

module _ {S E : Type 0} where
  abbrev pub pure : {A : Type 0} → A → Tx S E A
  pure a s = ok (a, s)

  infixl 5 ◌>>=◌ ◌>>◌
  abbrev pub ◌>>=◌ : {A B : Type 0} → Tx S E A → (A → Tx S E B) → Tx S E B
  ◌>>=◌ m f s = elim (m s) [ ok (a, s') ↦ f a s' | err e ↦ err e ]

  abbrev pub ◌>>◌ : {B : Type 0} → Tx S E (Unit {0}) → Tx S E B → Tx S E B
  m >> k = m >>= λ _. k

  -- `if !b { return e }`
  abbrev pub require : Bool → E → Tx S E (Unit {0})
  require true e s = ok (tt, s)
  require false e s = err e

  abbrev pub lift : {A : Type 0} → Result E A → Tx S E A
  lift (ok a) s = ok (a, s)
  lift (err e) s = err e

  abbrev pub committed : {A : Type 0} → S → Result E (A × S) → Result E A × S
  committed s (ok (a, s')) = (ok a, s')
  committed s (err e) = (err e, s)

  -- BeginTx, the statements, Commit; Rollback on an error.
  abbrev pub commit : {A : Type 0} → Tx S E A → Exec S E A
  commit m s = committed s (m s)

  -- What a method reads after it has committed.
  abbrev pub and_then : {A B : Type 0} → Exec S E A → (A → S → Result E B) → Exec S E B
  and_then m f s = let (r, s') = m s in (elim r [ ok a ↦ f a s' | err e ↦ err e ], s')
