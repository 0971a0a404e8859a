-- ===== src/Sql/Fails.antt =====
-- Transactions that fail, and so change nothing.
use marvo.Base.{◌≡◌, refl, ap, subst, Bool, true, false}
use marvo.Sql.{Result, ok, err, Tx, ◌>>=◌, ◌>>◌, commit, committed, and_then, require, lift}
use marvo.Sql.Keeps.{Sound}

abbrev pub is_err {ℓ} : {E : Type 0} {A : Type ℓ} → Result E A → Bool
is_err (ok a) = false
is_err (err e) = true

module _ {S E : Type 0} where
  -- An error that leaves the tables as they are.
  abbrev pub Refused : {A : Type 0} → Result E A × S → S → Type 0
  Refused out s = (is_err out.0 ≡ true) × (out.1 ≡ s)

  first_fails :
      {A B : Type 0} (r : Result E (A × S)) (k : A → Tx S E B)
      → is_err r ≡ true
      → is_err (elim r as (λ _. Result E (B × S)) [ ok (a, s) ↦ k a s | err e ↦ err e ]) ≡ true
  first_fails (ok (a, s)) k h = cc
  first_fails (err e) k h = refl

  pub bind_fails :
      {A B : Type 0} (m : Tx S E A) (k : A → Tx S E B) (s : S)
      → is_err (m s) ≡ true
      → is_err ((m >>= k) s) ≡ true
  bind_fails m k s h = first_fails (m s) k h

  then_fails :
      {A B : Type 0} (r : Result E (A × S)) (k : A → Tx S E B)
      → ((a : A) (s : S) → is_err (k a s) ≡ true)
      → is_err (elim r as (λ _. Result E (B × S)) [ ok (a, s) ↦ k a s | err e ↦ err e ]) ≡ true
  then_fails (ok (a, s)) k h = h a s
  then_fails (err e) k h = refl

  pub rest_fails :
      {A B : Type 0} (m : Tx S E A) (k : A → Tx S E B) (s : S)
      → ((a : A) (s' : S) → is_err (k a s') ≡ true)
      → is_err ((m >>= k) s) ≡ true
  rest_fails m k s h = then_fails (m s) k h

  pub require_fails :
      {B : Type 0} (b : Bool) (e : E) (k : Tx S E B) (s : S)
      → b ≡ false
      → is_err ((require b e >> k) s) ≡ true
  require_fails true e k s h = cc
  require_fails false e k s h = refl

  refused :
      {A B : Type 0} (r : Result E (A × S)) (f : A → S → Result E B) (s : S)
      → is_err r ≡ true
      → Refused (and_then (λ _. committed s r) f s) s
  refused (ok (a, s')) f s h = cc
  refused (err e) f s h = (refl, refl)

  pub commit-Refused :
      {A B : Type 0} (m : Tx S E A) (f : A → S → Result E B) (s : S)
      → is_err (m s) ≡ true
      → Refused (and_then (commit m) f s) s
  commit-Refused m f s h = refused (m s) f s h

  pub lift_fails :
      {A B : Type 0} (x : Result E A) (k : A → Tx S E B) (s : S)
      → ((a : A) → x ≡ ok a → is_err (k a s) ≡ true)
      → is_err ((lift x >>= k) s) ≡ true
  lift_fails (ok a) k s h = h a refl
  lift_fails (err e) k s h = refl

  committed_refuses :
      {A : Type 0} (r : Result E (A × S)) (s : S) → is_err r ≡ true → Refused (committed s r) s
  committed_refuses (ok x) s h = cc
  committed_refuses (err e) s h = (refl, refl)

  pub failed_commit :
      {A : Type 0} (m : Tx S E A) (s : S) → is_err (m s) ≡ true → Refused (commit m s) s
  failed_commit m s h = committed_refuses (m s) s h

  -- What holds after a transaction that ends well.
  committed_sound :
      {A : Type 0} (Q : S → Type 0) (r : Result E (A × S)) (a : A) (s s' : S)
      → Sound Q r
      → committed s r ≡ (ok a, s')
      → Q s'
  committed_sound {A = A} Q (ok (b, t)) a s s' q e =
      subst Q (ap (λ (out : Result E A × S). out.1) e) q
  committed_sound {A = A} Q (err x) a s s' q e = cc (ap (λ (out : Result E A × S). out.0) e)

  pub commit-ok :
      {A : Type 0} (Q : S → Type 0) (m : Tx S E A) (a : A) (s s' : S)
      → Sound Q (m s)
      → commit m s ≡ (ok a, s')
      → Q s'
  commit-ok Q m a s s' q e = committed_sound Q (m s) a s s' q e

  pub Sound-lift :
      {A B : Type 0} (Q : S → Type 0) (x : Result E A) (k : A → Tx S E B) (s : S)
      → ((a : A) → x ≡ ok a → Sound Q (k a s))
      → Sound Q ((lift x >>= k) s)
  Sound-lift Q (ok a) k s h = h a refl
  Sound-lift Q (err e) k s h = tt

  pub Sound-require :
      {B : Type 0} (Q : S → Type 0) (b : Bool) (e : E) (k : Tx S E B) (s : S)
      → Sound Q (k s)
      → Sound Q ((require b e >> k) s)
  Sound-require Q true e k s h = h
  Sound-require Q false e k s h = tt
