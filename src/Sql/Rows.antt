-- ===== src/Sql/Rows.antt =====
-- Statements over the rows of one table.
use Prim.Native.Nat.{ℕ, suc, ◌+◌, ◌≤◌}
use marvo.Base.{
  ◌≡◌, refl, ◌∙◌, Bool, true, false, Option, none, some, List, [], ◌∷◌, ◌++◌, arith, if◌then◌else◌,
  keep, exists, Bool-cases, inl, inr, subst, ◌⊎◌,
}

module _ {ℓ} {A : Type ℓ} where
  -- UPDATE ... SET f WHERE p
  unfoldable pub update_where : (A → Bool) → (A → A) → List A → List A
  update_where p f [] = []
  update_where p f (x ∷ xs) = (if p x then f x else x) ∷ update_where p f xs

  -- SELECT COUNT(*) ... WHERE p, and RowsAffected
  unfoldable pub count_where : (A → Bool) → List A → ℕ
  count_where p [] = 0
  count_where p (x ∷ xs) = let n = count_where p xs in if p x then suc n else n

  -- SELECT ... WHERE p, at a key: the first row that fits.
  unfoldable pub find_where : (A → Bool) → List A → Option A
  find_where p [] = none
  find_where p (x ∷ xs) = let rest = find_where p xs in if p x then some x else rest

  -- Where `lt y x`, the row `y` comes before the best one so far.
  better : (A → A → Bool) → A → Option A → A
  better lt x none = x
  better lt x (some y) = if lt y x then y else x

  -- SELECT ... WHERE p ORDER BY lt LIMIT 1
  unfoldable pub least_where : (A → Bool) → (A → A → Bool) → List A → Option A
  unfolding better
  least_where p lt [] = none
  least_where p lt (x ∷ xs) =
      let rest = least_where p lt xs in if p x then some (better lt x rest) else rest

  -- A predicate by recursion, which the tactics read.
  abbrev pub All {κ} : (A → Type κ) → List A → Type κ
  All P [] = Unit
  All P (x ∷ xs) = P x × All P xs

  pub All-append {κ} : (P : A → Type κ) (xs ys : List A) → All P xs → All P ys → All P (xs ++ ys)
  All-append P [] ys hx hy = hy
  All-append P (x ∷ xs) ys hx hy = (hx.0, All-append P xs ys hx.1 hy)

  pub All-update_where {κ} :
      (P : A → Type κ) (p : A → Bool) (f : A → A) (xs : List A)
      → ((x : A) → p x ≡ true → P x → P (f x))
      → All P xs
      → All P (update_where p f xs)
  unfolding update_where
  All-update_where P p f [] h a = tt
  All-update_where P p f (x ∷ xs) h a = elim (Bool-cases (p x)) [
    | inl e ↦ rw e (h x e a.0, All-update_where P p f xs h a.1)
    | inr e ↦ rw e (a.0, All-update_where P p f xs h a.1)
  ]

  pub All-keep {κ} : (P : A → Type κ) (p : A → Bool) (xs : List A) → All P xs → All P (keep p xs)
  All-keep P p [] a = tt
  All-keep P p (x ∷ xs) a = elim (Bool-cases (p x)) [
    | inl e ↦ rw e (a.0, All-keep P p xs a.1)
    | inr e ↦ rw e (All-keep P p xs a.1)
  ]

  -- A row that a query returns has what all rows have, and fits the query.
  pub find_where-All {κ} :
      (P : A → Type κ) (p : A → Bool) (xs : List A) (x : A)
      → All P xs
      → find_where p xs ≡ some x
      → P x × (p x ≡ true)
  unfolding find_where
  find_where-All P p [] x a e = cc
  find_where-All P p (y ∷ ys) x a e = elim (Bool-cases (p y)) [
    | inl t ↦ let same : y ≡ x = cc (rw t at e) in (subst P same a.0, rw (← same) t)
    | inr f ↦ find_where-All P p ys x a.1 (rw f at e)
  ]

  better-cases :
      (lt : A → A → Bool) (y : A) (o : Option A) → (better lt y o ≡ y) ⊎ (o ≡ some (better lt y o))
  unfolding better
  better-cases lt y none = inl refl
  better-cases lt y (some z) = elim (Bool-cases (lt z y)) [
    | inl e ↦ inr (rw e)
    | inr e ↦ inl (rw e)
  ]

  pub least_where-All {κ} :
      (P : A → Type κ) (p : A → Bool) (lt : A → A → Bool) (xs : List A) (x : A)
      → All P xs
      → least_where p lt xs ≡ some x
      → P x × (p x ≡ true)
  unfolding least_where
  least_where-All P p lt [] x a e = cc
  least_where-All P p lt (y ∷ ys) x a e = elim (Bool-cases (p y)) [
    | inl t ↦
        let same : better lt y (least_where p lt ys) ≡ x = cc (rw t at e) in
        elim (better-cases lt y (least_where p lt ys)) [
          | inl first ↦ let own : y ≡ x = cc in (subst P own a.0, rw (← own) t)
          | inr later ↦ least_where-All P p lt ys x a.1 (rw same at later)
        ]
    | inr f ↦ least_where-All P p lt ys x a.1 (rw f at e)
  ]

  pub count_where-append :
      (p : A → Bool) (xs ys : List A)
      → count_where p (xs ++ ys) ≡ count_where p xs + count_where p ys
  unfolding count_where
  count_where-append p [] ys = omega arith
  count_where-append p (x ∷ xs) ys = ground (arith, count_where-append p xs ys)

  -- An update that takes no row into `q` does not raise the count of `q`.
  pub count_where-update_where :
      (q p : A → Bool) (f : A → A) (xs : List A)
      → ((x : A) → p x ≡ true → q (f x) ≡ true → q x ≡ true)
      → count_where q (update_where p f xs) ≤ count_where q xs
  unfolding count_where update_where
  count_where-update_where q p f [] h = omega arith
  count_where-update_where q p f (x ∷ xs) h =
      ground (arith, h x, count_where-update_where q p f xs h)

  pub count_where-keep :
      (q p : A → Bool) (xs : List A) → count_where q (keep p xs) ≤ count_where q xs
  unfolding count_where
  count_where-keep q p [] = omega arith
  count_where-keep q p (x ∷ xs) = ground (arith, count_where-keep q p xs)

  -- What no row has is counted nowhere.
  pub count_where_of_not_exists :
      (p q : A → Bool) (xs : List A)
      → ((x : A) → p x ≡ true → q x ≡ true)
      → exists q xs ≡ false
      → count_where p xs ≡ 0
  unfolding count_where
  count_where_of_not_exists p q [] h e = refl
  count_where_of_not_exists p q (x ∷ xs) h e =
      ground (arith, h x, count_where_of_not_exists p q xs h)

  -- A statement that fits no row changes none.
  pub update_where_none :
      (p : A → Bool) (f : A → A) (xs : List A) → exists p xs ≡ false → update_where p f xs ≡ xs
  unfolding update_where
  update_where_none p f [] e = refl
  update_where_none p f (x ∷ xs) e = ground (arith, update_where_none p f xs)

  pub count_where_none : (p : A → Bool) (xs : List A) → exists p xs ≡ false → count_where p xs ≡ 0
  count_where_none p xs e = count_where_of_not_exists p p xs (λ x h. h) e

  -- A row that is found is there.
  pub exists_of_find_where :
      (p q : A → Bool) (xs : List A) (x : A)
      → find_where p xs ≡ some x
      → q x ≡ true
      → exists q xs ≡ true
  unfolding find_where
  exists_of_find_where p q [] x e h = cc
  exists_of_find_where p q (y ∷ ys) x e h = elim (Bool-cases (p y)) [
    | inl t ↦ let same : y ≡ x = cc (rw t at e) in rw (same, h) refl
    | inr f ↦ ground (arith, exists_of_find_where p q ys x (rw f at e) h)
  ]

  pub find_where-fits : (p : A → Bool) (xs : List A) (x : A) → find_where p xs ≡ some x → p x ≡ true
  unfolding find_where
  find_where-fits p [] x e = cc
  find_where-fits p (y ∷ ys) x e = ground (arith, find_where-fits p ys x)

  pub count_where_mono :
      (p q : A → Bool) (xs : List A)
      → ((x : A) → p x ≡ true → q x ≡ true)
      → count_where p xs ≤ count_where q xs
  unfolding count_where
  count_where_mono p q [] h = omega arith
  count_where_mono p q (x ∷ xs) h = ground (arith, h x, count_where_mono p q xs h)

  -- Where a key is unique and an UPDATE affected one row of the key, the row that is read back under
  -- the key is the changed one.
  pub find_where-update_where :
      (key p : A → Bool) (f : A → A) (xs : List A) (y : A)
      → ((x : A) → p x ≡ true → key x ≡ true)
      → ((x : A) → key (f x) ≡ key x)
      → count_where key xs ≤ 1
      → count_where p xs ≡ 1
      → find_where key (update_where p f xs) ≡ some y
      → (x : A) × (p x ≡ true) × (f x ≡ y)
  unfolding count_where find_where update_where
  find_where-update_where key p f [] y sub same u w e = cc
  find_where-update_where key p f (x ∷ xs) y sub same u w e = elim (Bool-cases (p x)) [
    | inl t ↦ let k : key (f x) ≡ true = same x ∙ sub x t in (x, t, cc (simp (t, k) at e))
    | inr n ↦ elim (Bool-cases (key x)) [
      | inl k ↦ absurd (ground (arith, count_where_mono p key xs sub))
      | inr k ↦
          find_where-update_where key p f xs y sub same (ground arith) (ground arith)
            (simp (n, k) at e)
    ]
  ]

  -- A row under a key that an UPDATE leaves alone.
  pub find_where-updated :
      (key p : A → Bool) (f : A → A) (xs : List A) (x : A)
      → ((x : A) → key (f x) ≡ key x)
      → find_where key xs ≡ some x
      → find_where key (update_where p f xs) ≡ some (if p x then f x else x)
  unfolding find_where update_where
  find_where-updated key p f [] x same e = cc
  find_where-updated key p f (y ∷ ys) x same e = elim (Bool-cases (key y)) [
    | inl k ↦
        let own : y ≡ x = cc (rw k at e) in
        let at_x : key x ≡ true = rw (← own) k in
        rw own (elim (Bool-cases (p x)) [
          | inl t ↦ rw (t, same x, at_x) refl
          | inr n ↦ rw (n, at_x) refl
        ])
    | inr k ↦
        let ih = find_where-updated key p f ys x same (rw k at e) in
        elim (Bool-cases (p y)) [ inl t ↦ rw (t, same y, k) ih | inr n ↦ rw (n, k) ih ]
  ]

  pub find_where-append :
      (p : A → Bool) (xs ys : List A) (x : A)
      → find_where p xs ≡ some x
      → find_where p (xs ++ ys) ≡ some x
  unfolding find_where
  find_where-append p [] ys x e = cc
  find_where-append p (y ∷ xs) ys x e = elim (Bool-cases (p y)) [
    | inl t ↦ rw t (rw t at e)
    | inr n ↦ rw n (find_where-append p xs ys x (rw n at e))
  ]

  pub find_where-keep :
      (p q : A → Bool) (xs : List A) (x : A)
      → ((y : A) → p y ≡ true → q y ≡ true)
      → find_where p xs ≡ some x
      → find_where p (keep q xs) ≡ some x
  unfolding find_where
  find_where-keep p q [] x h e = cc
  find_where-keep p q (y ∷ xs) x h e = elim (Bool-cases (p y)) [
    | inl t ↦ rw (h y t, t) (rw t at e)
    | inr n ↦ elim (Bool-cases (q y)) [
      | inl k ↦ rw (k, n) (find_where-keep p q xs x h (rw n at e))
      | inr k ↦ rw k (find_where-keep p q xs x h (rw n at e))
    ]
  ]
