-- ===== src/Deliveries/Loop/Attended.antt =====
-- internal/delivery/dispatcher.go: what becomes of a user that is woken.
use marvo.Base.{◌≡◌, String, Bool, true, not, ◌&&◌, ◌||◌, string_eq, is_some, lookup}
use marvo.Deliveries.Loop.{Loop}

-- From `s` to `r` a worker of the user was started.
abbrev pub has_started : String → Loop → Loop → Bool
has_started user s r = not (is_some (lookup user s.running)) && is_some (lookup user r.running)

-- The user waits still, or a worker was started; and a running worker is still marked.
record IsAttended (user : String) (s r : Loop) : Type 0 where
  waits : (is_some (lookup user r.due) || has_started user s r) ≡ true
  marked : (not (is_some (lookup user s.running)) || is_some (lookup user r.running)) ≡ true
