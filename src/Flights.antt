-- ===== src/Flights.antt =====
-- Goroutines in flight, each for a user: the list of their users, and the map that marks the users.
use marvo.Base.{
  ℕ, ◌+◌, ◌-◌, ◌≡◌, ◌≤◌, ◌<◌, refl, arith, String, Bool, true, none, List, [], ◌∷◌, ◌++◌,
  if◌then◌else◌, ◌==◌, string_eq, text_iff, is_some, Map, lookup, insert, erase, IsUnique, length,
  exists, Bool-cases, inl, inr,
}
use marvo.Sql.Rows.{count_where, count_where-append}

-- One goroutine of the user is no longer in flight.
unfoldable pub landed : String → List String → List String
landed user [] = []
landed user (other ∷ flying) =
    let rest = landed user flying in if other == user then flying else other ∷ rest

-- How many goroutines for a user are in flight.
abbrev pub flights : String → List String → ℕ
flights u flying = count_where (λ v. v == u) flying

pub length-insert :
    (u : String) (m : Map String Bool) → lookup u m ≡ none → length (insert u true m) ≡ length m + 1
unfolding insert lookup
length-insert u [] e = refl
length-insert u ((j, w) ∷ m) e = ground (arith, length-insert u m)

pub length-erase :
    (u : String) (m : Map String Bool)
    → IsUnique m
    → is_some (lookup u m) ≡ true
    → length (erase u m) + 1 ≡ length m
unfolding erase lookup
length-erase u [] h e = cc
length-erase u ((j, w) ∷ m) h e = elim (Bool-cases (j == u)) [
  | inl same ↦ rw same (omega (arith, length-erase_absent u m (rw ((text_iff j u).0 same) at h.0)))
  | inr other ↦ rw other (omega (arith, length-erase u m h.1 (rw other at e)))
]
  where
    length-erase_absent :
        (u : String) (m : Map String Bool) → lookup u m ≡ none → length (erase u m) ≡ length m
    length-erase_absent u [] e = refl
    length-erase_absent u ((j, w) ∷ m) e = ground (arith, length-erase_absent u m)

pub length-landed :
    (u : String) (flying : List String)
    → 0 < flights u flying
    → length (landed u flying) + 1 ≡ length flying
unfolding landed count_where
length-landed u [] h = absurd (omega arith)
length-landed u (v ∷ flying) h = ground (arith, length-landed u flying)

pub flights-landed :
    (u v : String) (flying : List String)
    → flights v (landed u flying) ≡ (if u == v then flights v flying - 1 else flights v flying)
unfolding landed count_where
flights-landed u v [] = ground arith
flights-landed u v (w ∷ flying) =
    ground (arith, flights-landed u v flying, text_iff w u, text_iff w v, text_iff u v)

pub flights_of_exists :
    (u : String) (flying : List String) → exists (λ v. v == u) flying ≡ true → 0 < flights u flying
unfolding count_where
flights_of_exists u [] h = cc
flights_of_exists u (v ∷ flying) h = ground (arith, flights_of_exists u flying)

pub flights-append :
    (u v : String) (flying : List String)
    → flights u (flying ++ v ∷ []) ≡ flights u flying + (if v == u then 1 else 0)
unfolding count_where
flights-append u v flying =
    ground (arith, count_where-append (λ (w : String). w == u) flying (v ∷ []))

pub length-insert_le : (u : String) (m : Map String Bool) → length (insert u true m) ≤ length m + 1
unfolding insert
length-insert_le u [] = omega arith
length-insert_le u ((j, w) ∷ m) = ground (arith, length-insert_le u m)
