-- ===== src/Base/Partial.antt =====
-- Code that can panic, or run out of the model's fuel: `none`. The rules for code that does neither.
use mathlib.Core.Path.{◌≡◌, refl, subst}
use mathlib.Core.Bool.{Bool, true, false}
use mathlib.Core.Option.{Option, none, some}
use marvo.Base.Tests.{if◌then◌else◌}

infixl 5 ◌>>=◌
abbrev pub ◌>>=◌ {ℓ κ} : {A : Type ℓ} {B : Type κ} → Option A → (A → Option B) → Option B
none >>= f = none
some a >>= f = f a

-- The code ends well, with a value of which `P` holds.
pub data Ends {ℓ κ} {A : Type ℓ} (P : A → Type κ) : Option A → Type (ℓ ⊔ κ) where
  ends : {a : A} → P a → Ends P (some a)

module _ {ℓ κ} {A : Type ℓ} {P : A → Type κ} where
  pub Ends-bind {μ ν} :
      {B : Type μ} {Q : B → Type ν} {o : Option A} {f : A → Option B}
      → Ends P o
      → ((a : A) → P a → Ends Q (f a))
      → Ends Q (o >>= f)
  Ends-bind (ends p) k = k _ p

  pub Ends-if :
      {x y : Option A} (b : Bool)
      → (b ≡ true → Ends P x)
      → (b ≡ false → Ends P y)
      → Ends P (if b then x else y)
  Ends-if true p q = p refl
  Ends-if false p q = q refl

  pub Ends-map {μ} : {Q : A → Type μ} {o : Option A} → Ends P o → ((a : A) → P a → Q a) → Ends Q o
  Ends-map (ends p) k = ends (k _ p)

  -- What the code returns.
  pub Ends-inv : {o : Option A} → Ends P o → (a : A) × (o ≡ some a) × P a
  Ends-inv (ends p) = (_, refl, p)

  pub Ends-some : {o : Option A} {a : A} → Ends P o → o ≡ some a → P a
  Ends-some (ends {a = b} p) e = let same : b ≡ _ = cc e in subst P same p
