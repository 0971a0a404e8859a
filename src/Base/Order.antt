-- ===== src/Base/Order.antt =====
-- The order of texts, by code points. It is Go's order of strings, which compares bytes: the UTF-8 form
-- keeps the order of the code points.
use Prim.Native.String.{String, compare as compare_text, then}
use Prim.Native.String.compare as clauses
use Prim.Native.Nat.{ℕ, Ordering, compare}
use Prim.Native.Char.{Char, code}
use mathlib.Core.Path.{◌≡◌, refl, ap, ◌∙◌}
use mathlib.Core.Bool.{Bool, true, false, ◌&&◌, ◌||◌}
use native.Mathlib.Omega.{arith}
use text.Mathlib.TextEquality.{Char-path}
use marvo.Base.Tests.{ltb}
use marvo.Base.Equality.{◌==◌, nat_eq}

-- a < b, and the order of `ORDER BY`
abbrev pub text_lt : String → String → Bool
text_lt a b = elim (compare_text a b) [ Ordering.lt ↦ true | _ ↦ false ]

abbrev is_before : Ordering → Bool
is_before o = elim o [ Ordering.lt ↦ true | _ ↦ false ]

then_lem :
    (m n : ℕ) (o : Ordering) → is_before (then (compare m n) o) ≡ (ltb m n || m == n && is_before o)
then_lem m n o = ground arith

text_lt-cons :
    (c : Char) (s : String) (d : Char) (t : String)
    → text_lt (String.◌∷◌ c s) (String.◌∷◌ d t)
      ≡ (ltb (code c) (code d) || code c == code d && text_lt s t)
text_lt-cons c s d t = ap is_before (clauses.cons-cons c d s t) ∙ (then_lem (code c) (code d) _)

text_lt-cons_nil : (c : Char) (s : String) → text_lt (String.◌∷◌ c s) "" ≡ false
text_lt-cons_nil c s = λ i. is_before (clauses.cons-nil c s i)

text_lt-nil_cons : (c : Char) (s : String) → text_lt "" (String.◌∷◌ c s) ≡ true
text_lt-nil_cons c s = λ i. is_before (clauses.nil-cons c s i)

pub text_lt_asym : (a b : String) → text_lt a b ≡ true → text_lt b a ≡ false
text_lt_asym String.[] String.[] h = refl
text_lt_asym String.[] (String.◌∷◌ d t) h = text_lt-cons_nil d t
text_lt_asym (String.◌∷◌ c s) String.[] h = cc (text_lt-cons_nil c s)
text_lt_asym (String.◌∷◌ c s) (String.◌∷◌ d t) h =
    ground (arith, text_lt-cons c s d t, text_lt-cons d t c s, text_lt_asym s t)

-- What is not below is at or above: transitive.
pub text_lt_trans :
    (a b c : String) → text_lt b a ≡ false → text_lt c b ≡ false → text_lt c a ≡ false
text_lt_trans String.[] b String.[] p q = refl
text_lt_trans (String.◌∷◌ x a) String.[] c p q = cc (text_lt-nil_cons x a)
text_lt_trans (String.◌∷◌ x a) (String.◌∷◌ y b) String.[] p q = cc (text_lt-nil_cons y b)
text_lt_trans String.[] String.[] (String.◌∷◌ z c) p q = text_lt-cons_nil z c
text_lt_trans String.[] (String.◌∷◌ y b) (String.◌∷◌ z c) p q = text_lt-cons_nil z c
text_lt_trans (String.◌∷◌ x a) (String.◌∷◌ y b) (String.◌∷◌ z c) p q =
    ground
      (arith, text_lt-cons y b x a, text_lt-cons z c y b, text_lt-cons z c x a, text_lt_trans a b c)

-- Two texts are equal, or one comes first.
pub text_lt_total : (a b : String) → text_lt a b ≡ false → text_lt b a ≡ false → a ≡ b
text_lt_total String.[] String.[] p q = refl
text_lt_total String.[] (String.◌∷◌ d t) p q = cc (text_lt-nil_cons d t)
text_lt_total (String.◌∷◌ c s) String.[] p q = cc (text_lt-nil_cons c s)
text_lt_total (String.◌∷◌ c s) (String.◌∷◌ d t) p q =
    let codes : code c ≡ code d = ground (arith, text_lt-cons c s d t, text_lt-cons d t c s) in
    let rest : s ≡ t =
      text_lt_total s t (ground (arith, text_lt-cons c s d t, text_lt-cons d t c s))
        (ground (arith, text_lt-cons c s d t, text_lt-cons d t c s)) in
    λ i. String.◌∷◌ (Char-path c d codes i) (rest i)
