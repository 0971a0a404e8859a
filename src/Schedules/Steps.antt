-- ===== src/Schedules/Steps.antt =====
-- The changes of a run that the statements make, each under the condition of its statement.
use marvo.Base.{◌≡◌, refl, arith, String, Bool, true, false, string_eq, nat_eq}
use marvo.Scheduling.{Instant}
use marvo.Schedules.Tables.{
  ScheduleRun, RunStatus, queued, running, waiting_retry, succeeded, failed, timed_out, cancelled,
  is_open, is_waiting, is_running,
}
use marvo.Schedules.Queue.{is_expired, recovered, claimed, waits_as}
use marvo.Schedules.Finish.{close}
use marvo.Schedules.Failure.{retry}
use marvo.Schedules.Invariant.{IsStep, IsRun, RunShape}

waiting-open : (s : RunStatus) → is_waiting s ≡ true → is_open s ≡ true
waiting-open queued h = refl
waiting-open waiting_retry h = refl
waiting-open running h = cc
waiting-open succeeded h = cc
waiting-open failed h = cc
waiting-open timed_out h = cc
waiting-open cancelled h = cc

running-open : (s : RunStatus) → is_running s ≡ true → is_open s ≡ true
running-open running h = refl
running-open queued h = cc
running-open waiting_retry h = cc
running-open succeeded h = cc
running-open failed h = cc
running-open timed_out h = cc
running-open cancelled h = cc

-- A running run has the shape of one.
pub running_shape :
    (s : RunStatus) (r : ScheduleRun) → is_running s ≡ true → RunShape s r → RunShape running r
running_shape running r h shape = shape
running_shape queued r h shape = cc
running_shape waiting_retry r h shape = cc
running_shape succeeded r h shape = cc
running_shape failed r h shape = cc
running_shape timed_out r h shape = cc
running_shape cancelled r h shape = cc

shape_running :
    (s : RunStatus) (r : ScheduleRun) → is_running s ≡ true → RunShape running r → RunShape s r
shape_running running r h shape = shape
shape_running queued r h shape = cc
shape_running waiting_retry r h shape = cc
shape_running succeeded r h shape = cc
shape_running failed r h shape = cc
shape_running timed_out r h shape = cc
shape_running cancelled r h shape = cc

-- A run of which the condition says that it runs.
abbrev pub Runs : (ScheduleRun → Bool) → Type 0
Runs p = (r : ScheduleRun) → p r ≡ true → is_running r.status ≡ true

abbrev pub Waits : (ScheduleRun → Bool) → Type 0
Waits p = (r : ScheduleRun) → p r ≡ true → is_waiting r.status ≡ true

-- Another lease, or other notes, of a running run.
pub note-IsStep :
    (p : ScheduleRun → Bool) (f : ScheduleRun → ScheduleRun)
    → Runs p
    → ((r : ScheduleRun) → (f r).id ≡ r.id)
    → ((r : ScheduleRun) → (f r).schedule_id ≡ r.schedule_id)
    → ((r : ScheduleRun) → (f r).status ≡ r.status)
    → ((r : ScheduleRun) → RunShape running r → RunShape running (f r))
    → IsStep p f
note-IsStep p f runs same owner status shape = record {
  same_id = same;
  no_reopen = λ r id h e. ground (arith, owner r, running-open r.status (runs r h));
  keeps_shape = λ r h s.
      shape_running (f r).status (f r) (ground (arith, status r, runs r h))
        (shape r (running_shape r.status r (runs r h) s));
}

-- A run that is open stays open, or is closed.
open-IsStep :
    (p : ScheduleRun → Bool) (f : ScheduleRun → ScheduleRun)
    → ((r : ScheduleRun) → p r ≡ true → is_open r.status ≡ true)
    → ((r : ScheduleRun) → (f r).id ≡ r.id)
    → ((r : ScheduleRun) → (f r).schedule_id ≡ r.schedule_id)
    → ((r : ScheduleRun) → p r ≡ true → IsRun r → IsRun (f r))
    → IsStep p f
open-IsStep p f opened same owner shape = record {
  same_id = same;
  no_reopen = λ r id h e. ground (arith, owner r, opened r h);
  keeps_shape = shape;
}

pub recovered-IsStep : (now : Instant) → IsStep (is_expired now) (recovered now)
recovered-IsStep now =
    open-IsStep (is_expired now) (recovered now) (λ r h. running-open r.status (ground arith))
      (λ r. refl) (λ r. refl)
      (λ r h shape. (refl, refl, (running_shape r.status r (ground arith) shape).2))

pub claimed-IsStep :
    (id : String) (now lease_until : Instant) → IsStep (waits_as id) (claimed now lease_until)
claimed-IsStep id now lease_until =
    open-IsStep (waits_as id) (claimed now lease_until)
      (λ r h. waiting-open r.status (ground arith)) (λ r. refl) (λ r. refl)
      (λ r h shape. (refl, refl, omega arith))

pub retry-IsStep :
    (p : ScheduleRun → Bool) (retry_at : Instant) (error : String) (t : Instant)
    → Runs p
    → IsStep p (retry retry_at error t)
retry-IsStep p retry_at error t runs =
    open-IsStep p (retry retry_at error t) (λ r h. running-open r.status (runs r h)) (λ r. refl)
      (λ r. refl) (λ r h shape. (refl, refl, (running_shape r.status r (runs r h) shape).2))

close-shape :
    (status : RunStatus) (error : String) (t : Instant) (r : ScheduleRun)
    → is_open status ≡ false
    → IsRun (close status error t r)
close-shape succeeded error t r h = (refl, refl, refl)
close-shape failed error t r h = (refl, refl, refl)
close-shape timed_out error t r h = (refl, refl, refl)
close-shape cancelled error t r h = (refl, refl, refl)
close-shape queued error t r h = cc
close-shape running error t r h = cc
close-shape waiting_retry error t r h = cc

pub close_running-IsStep :
    (p : ScheduleRun → Bool) (status : RunStatus) (error : String) (t : Instant)
    → is_open status ≡ false
    → Runs p
    → IsStep p (close status error t)
close_running-IsStep p status error t closed runs =
    open-IsStep p (close status error t) (λ r h. running-open r.status (runs r h)) (λ r. refl)
      (λ r. refl) (λ r h shape. close-shape status error t r closed)

pub close_waiting-IsStep :
    (p : ScheduleRun → Bool) (status : RunStatus) (error : String) (t : Instant)
    → is_open status ≡ false
    → Waits p
    → IsStep p (close status error t)
close_waiting-IsStep p status error t closed waits =
    open-IsStep p (close status error t) (λ r h. waiting-open r.status (waits r h)) (λ r. refl)
      (λ r. refl) (λ r h shape. close-shape status error t r closed)
