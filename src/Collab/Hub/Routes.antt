-- ===== src/Collab/Hub/Routes.antt =====
-- How the operations on the two maps of the hub change the set of one note.
use marvo.Base.{
  ℕ, ◌≢◌, ◌&&◌, String, ◌≡◌, refl, true, Option, none, some, [], ◌∷◌, arith, if◌then◌else◌, ◌==◌,
  string_eq, nat_eq, Map, lookup, insert, erase, is_empty, lookup-insert, lookup-erase,
  erase-IsUnique, IsUnique, text_iff, if-elim,
}
use marvo.Collab.Hub.{Pointer, drop_from, Clients, drop_sub, subs_of}

pub subs_of-insert :
    (t s : String) (set : Clients) (m : Map String Clients)
    → subs_of (insert t set m) s ≡ (if t == s then set else subs_of m s)
unfolding subs_of
subs_of-insert t s set m = rw lookup-insert (ground arith)

pub subs_of-erase :
    (t s : String) (m : Map String Clients)
    → subs_of (erase t m) s ≡ (if t == s then [] else subs_of m s)
unfolding subs_of
subs_of-erase t s m = rw lookup-erase (ground arith)

nil_of_is_empty : (m : Clients) → is_empty m ≡ true → m ≡ []
unfolding is_empty
nil_of_is_empty [] h = refl
nil_of_is_empty (x ∷ m) h = cc

erase-nil : (id : String) → erase {V = ℕ} id [] ≡ []
unfolding erase
erase-nil id = refl

subs_of-drop_from :
    (t s id : String) (o : Option Clients) (m : Map String Clients)
    → lookup t m ≡ o
    → subs_of (drop_from t id o m) s ≡ (if t == s then erase id (subs_of m s) else subs_of m s)
unfolding drop_from subs_of
subs_of-drop_from t s id none m e = ground (arith, text_iff t s, erase-nil id)
subs_of-drop_from t s id (some set) m e = ground (
  arith,
  lookup-erase t s m,
  lookup-insert t s (erase id set) m,
  nil_of_is_empty (erase id set),
  text_iff t s,
)

pub subs_of-drop_sub :
    (t s id : String) (m : Map String Clients)
    → subs_of (drop_sub t id m) s ≡ (if t == s then erase id (subs_of m s) else subs_of m s)
unfolding drop_sub
subs_of-drop_sub t s id m = subs_of-drop_from t s id (lookup t m) m refl

-- Who follows a note, and by which pointer.
abbrev pub subscriber : Map String Clients → String → String → Option Pointer
subscriber m title id = lookup id (subs_of m title)

module _ (t s id j : String) (m : Map String Clients) where
  pub subscriber-drop_sub :
      subscriber (drop_sub t id m) s j ≡ (if (t == s) && (id == j) then none else subscriber m s j)
  subscriber-drop_sub = rw subs_of-drop_sub (ground (arith, lookup-erase id j (subs_of m s)))

  pub subscriber-insert :
      (set : Clients)
      → subscriber (insert t set m) s j ≡ (if t == s then lookup j set else subscriber m s j)
  subscriber-insert set = rw subs_of-insert (ground arith)

-- No set is kept empty.
abbrev pub NoneEmpty : Map String Clients → Type 0
NoneEmpty m = (t : String) → lookup t m ≢ some []

abbrev pub AllUnique : Map String Clients → Type 0
AllUnique m = (t : String) → IsUnique (subs_of m t)

pub drop_sub-AllUnique :
    (t id : String) (m : Map String Clients) → AllUnique m → AllUnique (drop_sub t id m)
drop_sub-AllUnique t id m h s =
    rw subs_of-drop_sub
      (if-elim IsUnique (t == s) _ _ (erase-IsUnique id (subs_of m s) (h s)) (h s))

pub insert-AllUnique :
    (t : String) (set : Clients) (m : Map String Clients)
    → IsUnique set
    → AllUnique m
    → AllUnique (insert t set m)
insert-AllUnique t set m u h s = rw subs_of-insert (if-elim IsUnique (t == s) _ _ u (h s))

pub erase-AllUnique : (t : String) (m : Map String Clients) → AllUnique m → AllUnique (erase t m)
erase-AllUnique t m h s = rw subs_of-erase (if-elim IsUnique (t == s) _ _ tt (h s))

is_empty-nil : is_empty {K = String} {V = Pointer} [] ≡ true
unfolding is_empty
is_empty-nil = refl

drop_from-NoneEmpty :
    (t id : String) (o : Option Clients) (m : Map String Clients)
    → NoneEmpty m
    → NoneEmpty (drop_from t id o m)
unfolding drop_from
drop_from-NoneEmpty t id none m h s e = h s e
drop_from-NoneEmpty t id (some set) m h s e =
    ground (
      arith,
      h s,
      lookup-erase t s m,
      lookup-insert t s (erase id set) m,
      is_empty-nil,
      text_iff t s,
    )

pub drop_sub-NoneEmpty :
    (t id : String) (m : Map String Clients) → NoneEmpty m → NoneEmpty (drop_sub t id m)
unfolding drop_sub
drop_sub-NoneEmpty t id m h = drop_from-NoneEmpty t id (lookup t m) m h

pub erase-NoneEmpty : (t : String) (m : Map String Clients) → NoneEmpty m → NoneEmpty (erase t m)
erase-NoneEmpty t m h s e = ground (arith, h s, lookup-erase t s m)

pub insert-NoneEmpty :
    (t : String) (set : Clients) (m : Map String Clients)
    → set ≢ []
    → NoneEmpty m
    → NoneEmpty (insert t set m)
insert-NoneEmpty t set m n h s e = ground (arith, h s, lookup-insert t s set m)

pub insert_ne_nil : (id : String) (p : Pointer) (set : Clients) → insert id p set ≢ []
unfolding insert
insert_ne_nil id p [] e = cc
insert_ne_nil id p ((j, q) ∷ set) e = ground arith
