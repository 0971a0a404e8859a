-- ===== src/Sql/Keeps.antt =====
-- Invariants of tables: statements that keep them, and transactions made of such statements.
use marvo.Base.{Bool, true, false}
use marvo.Sql.{Result, ok, err, Tx, ◌>>=◌, ◌>>◌, commit, require, lift, committed}

module _ {S E : Type 0} (I : S → Type 0) where
  -- Whatever a result carries, its tables have the invariant.
  abbrev pub Sound : {A : Type 0} → Result E (A × S) → Type 0
  Sound (ok (a, s)) = I s
  Sound (err e) = Unit

  -- A transaction that keeps the invariant.
  abbrev pub Keeps : {A : Type 0} → Tx S E A → Type 0
  Keeps m = (s : S) → I s → Sound (m s)

  bind-Sound :
      {A B : Type 0} (r : Result E (A × S)) (f : A → Tx S E B)
      → Sound r
      → ((a : A) → Keeps (f a))
      → Sound (elim r [ ok (a, s) ↦ f a s | err e ↦ err e ])
  bind-Sound (ok (a, s)) f i k = k a s i
  bind-Sound (err e) f i k = tt

  pub Keeps-bind :
      {A B : Type 0} (m : Tx S E A) (f : A → Tx S E B)
      → Keeps m
      → ((a : A) → Keeps (f a))
      → Keeps (m >>= f)
  Keeps-bind m f km kf s i = bind-Sound (m s) f (km s i) kf

  pub Keeps-then :
      {B : Type 0} (m : Tx S E (Unit {0})) (k : Tx S E B) → Keeps m → Keeps k → Keeps (m >> k)
  Keeps-then m k km kk = Keeps-bind m (λ _. k) km (λ _. kk)

  pub Keeps-lift : {A : Type 0} (r : Result E A) → Keeps (lift r)
  Keeps-lift (ok a) s i = i
  Keeps-lift (err e) s i = tt

  pub Keeps-require : (b : Bool) (e : E) → Keeps (require b e)
  Keeps-require true e s i = i
  Keeps-require false e s i = tt

  committed-Sound :
      {A : Type 0} (r : Result E (A × S)) (s : S) → I s → Sound r → I (committed s r).1
  committed-Sound (ok (a, s')) s i k = k
  committed-Sound (err e) s i k = i

  -- A committed transaction keeps what its statements keep; one that is rolled back changes nothing.
  pub commit-Keeps : {A : Type 0} (m : Tx S E A) (s : S) → Keeps m → I s → I (commit m s).1
  commit-Keeps m s k i = committed-Sound (m s) s i (k s i)

module _ {S E : Type 0} where
  pub Sound-map :
      {A : Type 0} (I J : S → Type 0) (r : Result E (A × S))
      → Sound I r
      → ((s : S) → I s → J s)
      → Sound J r
  Sound-map I J (ok (a, s)) i k = k s i
  Sound-map I J (err e) i k = tt
