-- ===== src/Base/Text.antt =====
-- Go strings as texts: `len` counts the bytes of the UTF-8 form, `count` the characters.
-- A text is well formed, as is all that encoding/json hands to the program (it replaces what is not), so
-- `utf8.ValidString` holds of it.
use Prim.Native.Nat.{ℕ, ◌≤◌, ◌-◌}
use Prim.Native.Char.{Char, code, len_utf8}
use Prim.Native.String.{String, len}
use Prim.Native.String.len
use mathlib.Core.Path.{◌≡◌, refl, ap}
use mathlib.Core.Logic.{inl, inr}
use mathlib.Core.Bool.{Bool, true, false, ◌&&◌, ◌||◌}
use native.Mathlib.Omega.{arith}
use marvo.Base.Tests.{leb, leb→le, if◌then◌else◌, Bool-cases}
use marvo.Base.Equality.{◌==◌, nat_eq}

-- unicode.IsSpace
unfoldable pub is_space : ℕ → Bool
is_space c =
    leb 9 c && leb c 13
    || c == 32
    || c == 0x85
    || c == 0xa0
    || c == 0x1680
    || leb 0x2000 c && leb c 0x200a
    || c == 0x2028
    || c == 0x2029
    || c == 0x202f
    || c == 0x205f
    || c == 0x3000

-- strings.TrimLeftFunc(s, unicode.IsSpace)
unfoldable pub trim_left : String → String
trim_left String.[] = ""
trim_left (String.◌∷◌ c s) =
    let rest = trim_left s in if is_space (code c) then rest else String.◌∷◌ c s

is_blank : String → Bool
is_blank String.[] = true
is_blank (String.◌∷◌ c s) = false

-- One character in front of a text whose end is already trimmed.
trim_cons : Char → String → String
unfolding is_blank
trim_cons c s = if is_blank s && is_space (code c) then "" else String.◌∷◌ c s

-- strings.TrimRightFunc(s, unicode.IsSpace)
unfoldable pub trim_right : String → String
unfolding trim_cons
trim_right String.[] = ""
trim_right (String.◌∷◌ c s) = trim_cons c (trim_right s)

-- strings.TrimSpace
unfoldable pub trim_space : String → String
unfolding trim_left trim_right is_space
trim_space s = trim_left (trim_right s)

trimmed_test : trim_space "  a b \n" ≡ "a b"
unfolding trim_space
trimmed_test = refl

trim_cons_idem :
    (c : Char) (s : String) → trim_right s ≡ s → trim_right (trim_cons c s) ≡ trim_cons c s
unfolding trim_cons trim_right
trim_cons_idem c s h = elim (Bool-cases (is_blank s && is_space (code c))) [
  | inl e ↦ rw e
  | inr e ↦ rw e (rw h (rw e))
]

trim_right_idem : (s : String) → trim_right (trim_right s) ≡ trim_right s
unfolding trim_right
trim_right_idem String.[] = refl
trim_right_idem (String.◌∷◌ c s) = trim_cons_idem c (trim_right s) (trim_right_idem s)

trim_left_idem : (s : String) → trim_left (trim_left s) ≡ trim_left s
unfolding trim_left
trim_left_idem String.[] = refl
trim_left_idem (String.◌∷◌ c s) = elim (Bool-cases (is_space (code c))) [
  | inl e ↦ rw e (trim_left_idem s)
  | inr e ↦ rw e (rw e)
]

after_first : String → String
after_first String.[] = ""
after_first (String.◌∷◌ c s) = s

trim_right-tail :
    (c : Char) (s : String) → trim_right (String.◌∷◌ c s) ≡ String.◌∷◌ c s → trim_right s ≡ s
unfolding trim_right trim_cons is_blank after_first
trim_right-tail c s h = elim (Bool-cases (is_blank (trim_right s) && is_space (code c))) [
  | inl e ↦ cc (ap is_blank (rw e at h))
  | inr e ↦ ap after_first (rw e at h)
]

trim_right-trim_left : (s : String) → trim_right s ≡ s → trim_right (trim_left s) ≡ trim_left s
unfolding trim_left
trim_right-trim_left String.[] h = h
trim_right-trim_left (String.◌∷◌ c s) h = elim (Bool-cases (is_space (code c))) [
  | inl e ↦ rw e (trim_right-trim_left s (trim_right-tail c s h))
  | inr e ↦ rw e h
]

pub trim_space_idem : (s : String) → trim_space (trim_space s) ≡ trim_space s
unfolding trim_space
trim_space_idem s =
    rw (trim_right-trim_left (trim_right s) (trim_right_idem s)) (trim_left_idem (trim_right s))

-- value[:n] without the bytes of a character that does not fit whole.
unfoldable pub cut_bytes : ℕ → String → String
cut_bytes n String.[] = ""
cut_bytes n (String.◌∷◌ c s) =
    let rest = cut_bytes (n - len_utf8 c) s in if leb (len_utf8 c) n then String.◌∷◌ c rest else ""

pub len-cut_bytes : (n : ℕ) (s : String) → len (cut_bytes n s) ≤ n
unfolding cut_bytes
len-cut_bytes n String.[] = omega (arith, len.nil)
len-cut_bytes n (String.◌∷◌ c s) = elim (Bool-cases (leb (len_utf8 c) n)) [
  | inl e ↦
      rw (e, len.cons c (cut_bytes (n - len_utf8 c) s))
        (omega (arith, leb→le (len_utf8 c) n e, len-cut_bytes (n - len_utf8 c) s))
  | inr e ↦ rw e (omega (arith, len.nil))
]
