-- ===== src/Activities/Choices.antt =====
-- The choices of an activity, and those of a response.
use Prim.Native.String.{len, count}
use marvo.Base.{
  ℕ, ◌≡◌, ◌≤◌, refl, arith, String, Bool, true, false, not, ◌&&◌, ◌||◌, List, [], ◌∷◌, ltb, leb,
  ◌==◌, string_eq, nat_eq, text_iff, exists, length, trim_space, Bool-cases, inl, inr,
}
use marvo.Sql.{Result, ok, err}
use marvo.Sql.Rows.{count_where, All}
use marvo.Activities.{
  Error, Activity, kind_notice, kind_choice, max_choices, max_title_runes, max_content_bytes,
}
use marvo.Activities.Input.{
  ActivityPublish, is_choice, collect_responses, normalize_response_choices,
}

-- How often a choice is in a list.
abbrev pub times : String → List String → ℕ
times c choices = count_where (λ d. d == c) choices

abbrev both : String → List String → List String → Bool
both c seen result = exists (λ d. d == c) seen && exists (λ d. d == c) result

-- Trimmed choices that can be shown.
abbrev pub AreChoices : List String → Type 0
AreChoices choices = All (λ c. (is_choice c ≡ true) × (trim_space c ≡ c)) choices

-- No choice twice, and none that was seen before.
record AreNew (seen result : List String) : Type 0 where
  once : (c : String) → times c result ≤ 1
  fresh : (c : String) → exists (λ d. d == c) seen ≡ true → times c result ≡ 0

head_choice :
    (choice : String) (seen : List String) (more : Result Error (List String))
    (result : List String)
    → (elim more as (λ _. Result Error (List String)) [
      | ok rest ↦ ok (choice ∷ rest)
      | err e ↦ err e
    ])
      ≡ ok result
    → (rest : List String) × (more ≡ ok rest) × (result ≡ choice ∷ rest)
head_choice choice seen (ok rest) result e = (rest, refl, cc)
head_choice choice seen (err x) result e = cc

cons-AreNew :
    (choice : String) (seen rest : List String)
    → exists (λ d. d == choice) seen ≡ false
    → AreNew (choice ∷ seen) rest
    → AreNew seen (choice ∷ rest)
unfolding count_where
cons-AreNew choice seen rest new n = record {
  once = λ c. ground (arith, n.once c, n.fresh c, text_iff choice c);
  fresh = λ c h. ground (arith, n.fresh c, text_iff choice c, new);
}

abbrev pub Shaped : ActivityPublish → Type 0
Shaped out =
    ((out.kind == kind_notice && length out.choices == 0 && not out.multiple
        || out.kind == kind_choice
          && leb 2 (length out.choices)
          && leb (length out.choices) max_choices)
      ≡ true)
    × AreChoices out.choices
    × ((c : String) → times c out.choices ≤ 1)

abbrev pub Bounded : ActivityPublish → Type 0
Bounded out = (count out.title ≤ max_title_runes) × (len out.content ≤ max_content_bytes)

-- Every choice of the response is one of those that are offered.
abbrev pub AllOffered : List String → List String → Type 0
AllOffered allowed result = All (λ c. exists (λ d. d == c) allowed ≡ true) result

collect_responses-offered :
    (allowed seen raw result : List String)
    → collect_responses allowed seen raw ≡ ok result
    → AreNew seen result × AllOffered allowed result × (length result ≤ length raw)
unfolding collect_responses count_where
collect_responses-offered allowed seen [] result e =
    let same : [] ≡ result = cc e in
    rw (← same) (record { once = λ c. omega arith; fresh = λ c h. refl }, tt, omega arith)
collect_responses-offered allowed seen (r ∷ raw) result e =
    elim (Bool-cases (exists (λ s. s == trim_space r) allowed)) [
      | inr strange ↦ cc (rw strange at e)
      | inl offered ↦ elim (Bool-cases (exists (λ s. s == trim_space r) seen)) [
        | inl known ↦
            let (new, fine, size) =
              collect_responses-offered allowed seen raw result (rw (offered, known) at e) in
            (new, fine, omega (arith, size))
        | inr fresh ↦
            let (rest, found, shape) =
              head_choice (trim_space r) seen _ result (rw (offered, fresh) at e) in
            let (new, fine, size) =
              collect_responses-offered allowed (trim_space r ∷ seen) raw rest found in
            rw shape
              (cons-AreNew (trim_space r) seen rest fresh new, (offered, fine), omega (arith, size))
      ]
    ]

-- A response that is accepted has only choices that the activity offers, none twice, and at most one unless the
-- activity allows several; the response to a notice has none.
pub normalize_response_choices-offered :
    (a : Activity) (raw result : List String)
    → normalize_response_choices a raw ≡ ok result
    → AllOffered a.choices result
      × ((c : String) → times c result ≤ 1)
      × ((a.multiple || leb (length result) 1) ≡ true)
      × ((not (a.kind == kind_notice) || length result == 0) ≡ true)
unfolding normalize_response_choices count_where
normalize_response_choices-offered a raw result e = elim (Bool-cases (a.kind == kind_notice)) [
  | inl notice ↦ elim (Bool-cases (not (length raw == 0))) [
    | inl some_given ↦ cc (rw (notice, some_given) at e)
    | inr none_given ↦
        let same : [] ≡ result = cc (rw (notice, none_given) at e) in
        rw (← same) (tt, (λ c. omega arith), ground arith, ground arith)
  ]
  | inr choice ↦ elim (Bool-cases (ltb (length a.choices) (length raw))) [
    | inl many ↦ cc (rw (choice, many) at e)
    | inr few ↦ elim (Bool-cases (not a.multiple && ltb 1 (length raw))) [
      | inl several ↦ cc (rw (choice, few, several) at e)
      | inr single ↦
          let (new, fine, size) =
            collect_responses-offered a.choices [] raw result (rw (choice, few, single) at e) in
          (fine, new.once, ground (arith, single, size), ground (arith, choice))
    ]
  ]
]
