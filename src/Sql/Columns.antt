-- ===== src/Sql/Columns.antt =====
-- Columns of texts, and of times, which may be NULL: their order and their least value.
use marvo.Base.{
  ℕ, ◌≡◌, refl, arith, Bool, true, false, ◌||◌, Option, none, some, List, [], ◌∷◌, if◌then◌else◌,
  leb, ltb, exists,
}

-- NULL is the least value of a column.
abbrev pub column_lt : Option ℕ → Option ℕ → Bool
column_lt none none = false
column_lt none (some b) = true
column_lt (some a) none = false
column_lt (some a) (some b) = ltb a b

-- The smaller of two values of a column, NULL left aside.
abbrev pub earlier : Option ℕ → Option ℕ → Option ℕ
earlier none b = b
earlier (some a) none = some a
earlier (some a) (some b) = some (if ltb b a then b else a)

-- SELECT MIN(f) FROM rows
unfoldable pub least_due {ℓ} : {A : Type ℓ} → (A → Option ℕ) → List A → Option ℕ
least_due f [] = none
least_due f (x ∷ xs) = earlier (f x) (least_due f xs)

-- A column of an instant that is reached.
abbrev pub reached : Option ℕ → ℕ → Bool
reached none now = false
reached (some t) now = leb t now

pub reached-earlier :
    (a b : Option ℕ) (now : ℕ) → reached (earlier a b) now ≡ (reached a now || reached b now)
reached-earlier none b now = refl
reached-earlier (some x) none now = ground arith
reached-earlier (some x) (some y) now = ground arith

pub reached-least_due :
    {A : Type 0} (f : A → Option ℕ) (xs : List A) (now : ℕ)
    → reached (least_due f xs) now ≡ exists (λ x. reached (f x) now) xs
unfolding least_due
reached-least_due f [] now = refl
reached-least_due f (x ∷ xs) now =
    rw (reached-earlier (f x) (least_due f xs) now, reached-least_due f xs now) refl

pub exists-cong :
    {A : Type 0} (p q : A → Bool) (xs : List A) → ((x : A) → p x ≡ q x) → exists p xs ≡ exists q xs
exists-cong p q [] h = refl
exists-cong p q (x ∷ xs) h = rw (h x, exists-cong p q xs h) refl
