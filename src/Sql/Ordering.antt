-- ===== src/Sql/Ordering.antt =====
-- ORDER BY: sorting by a strict order, what it keeps, and how it goes with WHERE.
use Prim.Native.Nat.{ℕ, zero, suc, ◌<◌}
use marvo.Base.{
  ◌≡◌, refl, ap, ◌∙◌, arith, Bool, true, false, List, [], ◌∷◌, if◌then◌else◌, keep, drop, length,
  get_or, Bool-cases, inl, inr,
}
use marvo.Sql.Rows.{count_where, All, All-keep}

-- One row into a sorted list.
unfoldable pub place {ℓ} : {A : Type ℓ} → (A → A → Bool) → A → List A → List A
place lt x [] = x ∷ []
place lt x (q ∷ rest) = let more = place lt x rest in if lt x q then x ∷ q ∷ rest else q ∷ more

-- ... ORDER BY lt
unfoldable pub order_by {ℓ} : {A : Type ℓ} → (A → A → Bool) → List A → List A
unfolding place
order_by lt [] = []
order_by lt (x ∷ rest) = place lt x (order_by lt rest)

-- A strict order whose "not before" is transitive.
pub record IsOrder {ℓ} {A : Type ℓ} (lt : A → A → Bool) : Type ℓ where
  pub asym : (a b : A) → lt a b ≡ true → lt b a ≡ false
  pub trans : (a b c : A) → lt b a ≡ false → lt c b ≡ false → lt c a ≡ false

module _ {ℓ} {A : Type ℓ} (lt : A → A → Bool) (o : IsOrder lt) where
  -- What comes before one comes before all that do not.
  mixed : (x q r : A) → lt x q ≡ true → lt r q ≡ false → lt x r ≡ true
  mixed x q r h k = ground (arith, o.trans q r x)

  lt_irrefl : (a : A) → lt a a ≡ false
  lt_irrefl a = ground (arith, o.asym a a)

  -- No row comes before an earlier one.
  abbrev pub IsSorted : List A → Type ℓ
  IsSorted [] = Unit
  IsSorted (q ∷ rest) = All (λ r. lt r q ≡ false) rest × IsSorted rest

  lower_below :
      (x q : A) (rest : List A)
      → lt x q ≡ true
      → All (λ r. lt r q ≡ false) rest
      → All (λ r. lt x r ≡ true) rest
  lower_below x q [] h a = tt
  lower_below x q (r ∷ rest) h a = (mixed x q r h a.0, lower_below x q rest h a.1)

  higher_above :
      (x q : A) (rest : List A)
      → lt q x ≡ false
      → All (λ r. lt r q ≡ false) rest
      → All (λ r. lt r x ≡ false) rest
  higher_above x q [] h a = tt
  higher_above x q (r ∷ rest) h a = (o.trans x q r h a.0, higher_above x q rest h a.1)

  All-place {κ} :
      (P : A → Type κ) (x : A) (rest : List A) → P x → All P rest → All P (place lt x rest)
  unfolding place
  All-place P x [] h a = (h, tt)
  All-place P x (q ∷ rest) h a = elim (Bool-cases (lt x q)) [
    | inl e ↦ rw e (h, a)
    | inr e ↦ rw e (a.0, All-place P x rest h a.1)
  ]

  pub All-order_by {κ} : (P : A → Type κ) (rows : List A) → All P rows → All P (order_by lt rows)
  unfolding order_by
  All-order_by P [] a = tt
  All-order_by P (x ∷ rest) a = All-place P x (order_by lt rest) a.0 (All-order_by P rest a.1)

  place-IsSorted : (x : A) (rest : List A) → IsSorted rest → IsSorted (place lt x rest)
  unfolding place
  place-IsSorted x [] h = (tt, tt)
  place-IsSorted x (q ∷ rest) h = elim (Bool-cases (lt x q)) [
    | inl e ↦ rw e ((o.asym x q e, higher_above x q rest (o.asym x q e) h.0), h)
    | inr e ↦ rw e (All-place (λ r. lt r q ≡ false) x rest e h.0, place-IsSorted x rest h.1)
  ]

  pub order_by-IsSorted : (rows : List A) → IsSorted (order_by lt rows)
  unfolding order_by
  order_by-IsSorted [] = tt
  order_by-IsSorted (x ∷ rest) = place-IsSorted x (order_by lt rest) (order_by-IsSorted rest)

  place_first : (x : A) (rest : List A) → All (λ r. lt x r ≡ true) rest → place lt x rest ≡ x ∷ rest
  unfolding place
  place_first x [] a = refl
  place_first x (q ∷ rest) a = rw a.0 refl

  keep-place :
      (p : A → Bool) (x : A) (rest : List A)
      → IsSorted rest
      → keep p (place lt x rest) ≡ (if p x then place lt x (keep p rest) else keep p rest)
  unfolding place
  keep-place p x [] h = refl
  keep-place p x (q ∷ rest) h = elim (Bool-cases (lt x q)) [
    | inl e ↦
        let first =
          place_first x (keep p (q ∷ rest))
            (All-keep (λ r. lt x r ≡ true) p (q ∷ rest) (e, lower_below x q rest e h.0)) in
        rw (e, first) refl
    | inr e ↦ rw e (ground (arith, keep-place p x rest h.1))
  ]

  -- WHERE and ORDER BY may change places.
  pub keep-order_by :
      (p : A → Bool) (rows : List A) → keep p (order_by lt rows) ≡ order_by lt (keep p rows)
  unfolding order_by
  keep-order_by p [] = refl
  keep-order_by p (x ∷ rest) =
      keep-place p x (order_by lt rest) (order_by-IsSorted rest) ∙ (elim (Bool-cases (p x)) [
        | inl e ↦ rw (e, keep-order_by p rest) refl
        | inr e ↦ rw (e, keep-order_by p rest) refl
      ])

  -- Every row comes before the later ones.
  abbrev pub IsStrict : List A → Type ℓ
  IsStrict [] = Unit
  IsStrict (q ∷ rest) = All (λ r. lt q r ≡ true) rest × IsStrict rest

  keep_everything :
      (q : A) (rest : List A) → All (λ r. lt q r ≡ true) rest → keep (lt q) rest ≡ rest
  keep_everything q [] h = refl
  keep_everything q (r ∷ rest) h = rw h.0 (ap (◌∷◌ r) (keep_everything q rest h.1))

  pub get_or-All :
      (P : A → Type 0) (rest : List A) (n : ℕ) (d : A)
      → All P rest
      → n < length rest
      → P (get_or rest n d)
  get_or-All P [] n d a h = absurd (omega arith)
  get_or-All P (r ∷ rest) zero d a h = a.0
  get_or-All P (r ∷ rest) (suc n) d a h = get_or-All P rest n d a.1 (omega arith)

  -- The rows after the one at `n` are those that come after it.
  pub keep-after :
      (n : ℕ) (rows : List A) (d : A)
      → IsStrict rows
      → n < length rows
      → keep (lt (get_or rows n d)) rows ≡ drop (suc n) rows
  keep-after n [] d s h = absurd (omega arith)
  keep-after zero (q ∷ rest) d s h = rw (lt_irrefl q) (keep_everything q rest s.0)
  keep-after (suc n) (q ∷ rest) d s h =
      let later : lt (get_or rest n d) q ≡ false =
        o.asym q (get_or rest n d) (get_or-All (λ r. lt q r ≡ true) rest n d s.0 (omega arith)) in
      rw later (keep-after n rest d s.1 (omega arith))

  pub count_where-order_by :
      (p : A → Bool) (rows : List A) → count_where p (order_by lt rows) ≡ count_where p rows
  unfolding order_by count_where
  count_where-order_by p [] = refl
  count_where-order_by p (x ∷ rest) =
      count_where-place p x (order_by lt rest) ∙ ground (arith, count_where-order_by p rest)
    where
      count_where-place :
          (p : A → Bool) (x : A) (rest : List A)
          → count_where p (place lt x rest) ≡ count_where p (x ∷ rest)
      count_where-place p x [] = refl
      count_where-place p x (q ∷ rest) = ground (arith, count_where-place p x rest)
