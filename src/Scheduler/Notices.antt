-- ===== src/Scheduler/Notices.antt =====
-- internal/scheduler/manager.go: the activities that tell the user of a failed run, and of the result of a run for
-- which the agent has published none (`finishFailure`, `publishFallbackActivity`).
use Prim.Native.String.{len, ◌++◌}
use marvo.Base.{
  ◌-◌, String, Bool, false, not, ◌&&◌, Option, [], leb, if◌then◌else◌, ◌==◌, string_eq, nat_eq,
  trim_space, cut_bytes,
}
use marvo.Scheduling.{Instant}
use marvo.Sql.{Result, ok, err}
use marvo.Schedules.Tables.{Schedule, ScheduleRun, is_paused, is_scheduled}
use marvo.Deliveries.{Connector}
use marvo.Activities
use marvo.Activities.{kind_notice, max_content_bytes}
use marvo.Activities.Input.{ActivityPublish}
use marvo.Activities.Publish.{publish, has_source_message}

-- An error of the executor: ErrUserStopped, or another one with its text.
pub data ExecutionError : Type 0 where
  stopped : ExecutionError
  failed_with : String → ExecutionError

pub record ExecutionResult : Type 0 where
  pub session_id : String
  pub message_id : String
  pub final_text : String
  pub activity_published : Bool
  pub retryable : Bool
  pub error : Option ExecutionError

-- What publishing an activity computes and draws.
pub record Publisher : Type 0 where
  pub digest : ActivityPublish → String
  pub draw : Connector → String
  pub id : String

-- The activities after `Publish`, whose result the worker does not use.
abbrev pub announced : Publisher → Instant → ActivityPublish → Activities.Db → Activities.Db
announced p now input db = (publish p.digest p.draw p.id now input db).1

abbrev pub source_message_of : ExecutionResult → ScheduleRun → String
source_message_of e r =
    if not (e.message_id == "")
    then e.message_id
    else if not (r.request_message_id == "")
    then r.request_message_id
    else "schedule-failure-" ++ r.id

-- Whether the failure has paused the schedule.
abbrev pub has_paused : Schedule → ScheduleRun → Bool
has_paused s r =
    is_paused s.status
    && s.paused_reason == "failure"
    && is_scheduled r.trigger
    && s.revision == r.schedule_revision

abbrev pub failure_notice : ExecutionResult → ScheduleRun → Schedule → ScheduleRun → ActivityPublish
failure_notice e claimed updated finished = record {
  kind = kind_notice;
  title =
      if has_paused updated finished
      then "“" ++ updated.name ++ "”已暂停"
      else "“" ++ updated.name ++ "”本轮执行失败";
  content =
      if has_paused updated finished
      then "自动任务执行失败，已暂停后续执行。\n\n失败原因：" ++ updated.last_error
      else "自动任务本轮执行未完成。\n\n失败原因：" ++ finished.error;
  choices = [];
  multiple = false;
  source_session_id = updated.session_id;
  source_message_id = source_message_of e claimed;
}

abbrev pub suffix : String
suffix = "\n\n（内容较长，请打开对应的智能体对话查看完整结果。）"

-- A text cut to whole characters is what is left when bytes are taken off its cut form until it is valid.
unfoldable pub fallback_activity_content : String → String
fallback_activity_content value =
    let t = trim_space value in
    if leb (len t) max_content_bytes
    then t
    else trim_space (cut_bytes (max_content_bytes - len suffix) t) ++ suffix

abbrev pub fallback : Schedule → ExecutionResult → ActivityPublish
fallback s e = record {
  kind = kind_notice;
  title = s.name;
  content = fallback_activity_content e.final_text;
  choices = [];
  multiple = false;
  source_session_id = e.session_id;
  source_message_id = e.message_id;
}

unfoldable pub publish_unless :
    Publisher
    → Instant
    → ActivityPublish
    → Result Activities.Error Bool
    → Activities.Db
    → Activities.Db
publish_unless p now input (err x) db = db
publish_unless p now input (ok exists) db = if exists then db else announced p now input db

-- The activities after `publishFallbackActivity`, whose error is only logged.
unfoldable pub publish_fallback_activity :
    Publisher → Instant → Schedule → ExecutionResult → Activities.Db → Activities.Db
unfolding publish_unless
publish_fallback_activity p now s e db =
    let published =
      publish_unless p now (fallback s e) (has_source_message e.session_id e.message_id db) db in
    if e.activity_published then db else published
