-- ===== src/Tests/Worker.antt =====
-- internal/scheduler/manager.go at concrete inputs: the end of a worker.
use marvo.Base.{
  none, lookup, or_else, exists, if◌then◌else◌, ◌==◌, string_eq, nat_eq, ◌&&◌, ◌∷◌, [], ◌≡◌, ◌≤◌,
  ◌<◌, refl, true, false, ◌||◌, ◌+◌, some, trim_space,
}
use marvo.Base.Partial.{Ends}
use marvo.Sql.{ok}
use marvo.Schedules.Waits.{WaitsUntil}
use marvo.Scheduling.{Instant, truncate, normalize, has_adaptive_fields, seconds_duration}
use marvo.Scheduling.Calendar.{next, normalize_existing}
use marvo.Sql.Rows.{find_where, update_where}
use marvo.Schedules.Tables.{
  ClaimedScheduleRun, valid_activity_id, select_schedule, select_run, get, get_run,
  normalize_schedule_error,
}
use marvo.Schedules.Failure
use marvo.Schedules.Failure.{ScheduleFailure, retry}
use marvo.Schedules.Finish.{stamp, count_failure, claimed_rows, reread}
use marvo.Scheduler.Worker.{Space, run_timeout, failure_of, finish_failure, finalize}
use marvo.Scheduler.Notices.{Publisher, ExecutionResult, failed_with, publish_fallback_activity}
use marvo.Scheduler.Worker.{user_stopped, run_stopped}
use marvo.Scheduler.Active.{ActiveRun, Active, active_key, stop, stop_run, stop_user}
use marvo.Scheduler.Active.Stops.{is_aim, stops_causes}
use marvo.Scheduler.Worker.Fenced.{finalize-harmless}
use marvo.Scheduler.Worker.Attempts.{finish_failure_retries}
use marvo.Scheduler.Worker.Once.{fallback_once}
use marvo.Tests.Scheduling.{every_second}
use marvo.Tests.Schedules.{task, claim, claimed_db, report, title, now}
use marvo.Tests.Activities.{
  question, session, input, accepted, empty, digest, draw, asked, accepts, publishes,
}
use marvo.Activities.Fanout.{stored}

abbrev publisher : Publisher
publisher = record { digest = digest; draw = draw; id = question }

abbrev space : Space
space = record { schedules = claimed_db; activities = empty }

abbrev execution : ExecutionResult
execution = record {
  session_id = session;
  message_id = " m";
  final_text = "done";
  activity_published = false;
  retryable = true;
  error = some (failed_with title);
}

-- A claim whose run has been claimed again.
abbrev old_claim : ClaimedScheduleRun
old_claim = record { schedule = report; run = record claim.run { attempt = 2 } }

finalize-harmless_example :
    Ends
      (λ out. out.1 ≡ space)
      (finalize every_second now publisher old_claim now space false run_timeout execution)
finalize-harmless_example =
    finalize-harmless every_second now publisher old_claim now space false run_timeout execution
      refl

abbrev told : ScheduleFailure
told = record {
  error = title;
  retryable = true;
  is_timed_out = false;
  retry_delay = 30000000000;
  max_attempts = 6;
}

makes : failure_of execution false title claim.run.attempt ≡ some told
unfolding failure_of
makes = refl

retries :
    (Failure.finish_failure every_second now claim told now claimed_db).0
    ≡ ok (
      (stamp now (count_failure title report), retry (now + 30000000000) title now claim.run),
      true,
    )
unfolding Failure.finish_failure claimed_rows select_run find_where select_schedule next
    normalize_existing normalize trim_space has_adaptive_fields seconds_duration reread get
    valid_activity_id update_where get_run normalize_schedule_error
retries = refl

finish_failure_retries_example :
    (claim.run.attempt < 6)
    × ((true || false) ≡ true)
    × ((at : Instant) × WaitsUntil at
          (stamp now (count_failure title report), retry (now + 30000000000) title now claim.run)
          (Failure.finish_failure every_second now claim told now claimed_db).1
        × (truncate now + 30000000000 ≤ at)
        × (at ≤ truncate now + 3600000000000))
    × (finish_failure every_second now publisher claim now space execution false title
        ≡ some (
          ok tt,
          record space {
            schedules = (Failure.finish_failure every_second now claim told now claimed_db).1;
          },
        ))
finish_failure_retries_example =
    finish_failure_retries every_second now publisher claim now space execution false title told
      (stamp now (count_failure title report), retry (now + 30000000000) title now claim.run) makes
      retries

same_session : trim_space session ≡ trim_space session
same_session = refl

same_message : trim_space input.source_message_id ≡ trim_space execution.message_id
unfolding trim_space
same_message = refl

fallback_once_example :
    publish_fallback_activity publisher now report execution (stored draw asked empty)
    ≡ stored draw asked empty
fallback_once_example =
    fallback_once publisher now report execution publisher asked.created_at input accepted asked
      empty (stored draw asked empty) same_session same_message accepts publishes

abbrev busy : ActiveRun
busy = record { handle = 1; user_id = question; schedule_id = task; run_id = claim.run.id }

abbrev progress : Active
progress = record { active = (active_key question task, busy) ∷ []; causes = [] }

stops_busy : (stop question task claim.run.id progress).0 ≡ true
unfolding stop stop_run lookup
stops_busy = refl

stops_causes_example :
    (lookup 1 (stop_user question progress).causes
      ≡ or_else (lookup 1 progress.causes) (
          if exists (λ (_, run). run.user_id == question && run.handle == 1) progress.active
          then some user_stopped
          else none))
    × (lookup 1 (stop question task claim.run.id progress).1.causes
        ≡ or_else (lookup 1 progress.causes) (
            if is_aim claim.run.id 1 (lookup (active_key question task) progress.active)
            then some run_stopped
            else none))
    × ((stop_user question progress).active ≡ progress.active)
    × ((stop question task claim.run.id progress).1.active ≡ progress.active)
stops_causes_example = stops_causes question task claim.run.id 1 progress
