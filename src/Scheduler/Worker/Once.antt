-- ===== src/Scheduler/Worker/Once.antt =====
-- The activity that stands in for one that the agent did not publish.
use marvo.Base.{
  ◌≡◌, refl, sym, ap, arith, String, Bool, true, not, ◌&&◌, ◌||◌, List, [], ◌∷◌, ◌++◌, if-elim,
  ◌==◌, string_eq, ==-refl, exists, trim_space, length, nat_eq, ltb, inl, inr, Bool-cases,
}
use marvo.Scheduling.{Instant}
use marvo.Sql.{Result, ok, err}
use marvo.Schedules.Tables.{Schedule}
use marvo.Activities
use marvo.Activities.{Error, Activity, kind_notice, kind_choice}
use marvo.Activities.Input.{
  ActivityPublish, normalize_publish, normalize_choices, with_choices, is_publish, trimmed,
}
use marvo.Activities.Publish.{publish, has_source_message, new_activity, is_source_id}
use marvo.Activities.Fanout.{publish-stored}
use marvo.Scheduler.Notices.{
  Publisher, ExecutionResult, fallback, publish_unless, publish_fallback_activity,
}

HasSource : String → String → ActivityPublish → Type 0
HasSource session message out =
    (out.source_session_id ≡ session) × (out.source_message_id ≡ message)

with_choices-source :
    (t out : ActivityPublish) (choices : Result Error (List String))
    → with_choices t choices ≡ ok out
    → HasSource t.source_session_id t.source_message_id out
unfolding with_choices HasSource
with_choices-source t out (err x) e = cc
with_choices-source t out (ok choices) e =
    elim (Bool-cases (t.kind == kind_notice && (not (length choices == 0) || t.multiple))) [
      | inl bad ↦ cc (rw bad at e)
      | inr good ↦ elim (Bool-cases (t.kind == kind_choice && ltb (length choices) 2)) [
        | inl few ↦ cc (rw (good, few) at e)
        | inr many ↦
            let same : record t { choices = choices } ≡ out = cc (rw (good, many) at e) in
            (
              sym (ap (λ (o : ActivityPublish). o.source_session_id) same),
              sym (ap (λ (o : ActivityPublish). o.source_message_id) same),
            )
      ]
    ]

normalize_publish-source :
    (input out : ActivityPublish)
    → normalize_publish input ≡ ok out
    → HasSource (trim_space input.source_session_id) (trim_space input.source_message_id) out
unfolding normalize_publish
normalize_publish-source input out e = elim (Bool-cases (is_publish (trimmed input))) [
  | inl h ↦ with_choices-source (trimmed input) out (normalize_choices input.choices) (rw h at e)
  | inr h ↦ cc (rw h at e)
]

exists-last :
    (p : Activity → Bool) (rows : List Activity) (a : Activity)
    → p a ≡ true
    → exists p (rows ++ a ∷ []) ≡ true
exists-last p [] a h = ground (arith, h)
exists-last p (b ∷ rows) a h = ground (arith, exists-last p rows a h)

-- An execution whose messages have an activity already gets no other one.
quiet :
    (p : Publisher) (now : Instant) (s : Schedule) (e : ExecutionResult) (db : Activities.Db)
    → exists
        (λ a.
          a.source_session_id == trim_space e.session_id
          && a.source_message_id == trim_space e.message_id)
        db.activities
      ≡ true
    → publish_fallback_activity p now s e db ≡ db
unfolding publish_fallback_activity has_source_message publish_unless
quiet p now s e db h =
    if-elim (λ (o : Activities.Db). o ≡ db) e.activity_published _ _ refl
      (if-elim (λ r. publish_unless p now (fallback s e) r db ≡ db)
        (is_source_id (trim_space e.session_id) && is_source_id (trim_space e.message_id)) _ _
        (rw h refl) refl)

-- The user is told once: after Publish has made a new activity whose source is the session and the message of an
-- execution (but for spaces around them), the fallback for that execution, whether by the agent's own activity or
-- by an earlier fallback, adds nothing.
pub fallback_once :
    (p : Publisher) (later : Instant) (s : Schedule) (e : ExecutionResult) (q : Publisher)
    (now : Instant) (input accepted : ActivityPublish) (a : Activity) (db db' : Activities.Db)
    → trim_space input.source_session_id ≡ trim_space e.session_id
    → trim_space input.source_message_id ≡ trim_space e.message_id
    → normalize_publish input ≡ ok accepted
    → publish q.digest q.draw q.id now input db ≡ (ok (a, true), db')
    → publish_fallback_activity p later s e db' ≡ db'
unfolding HasSource
fallback_once p later s e q now input accepted a db db' session message n made =
    quiet p later s e db'
      (elim (publish-stored q.digest q.draw q.id now input accepted a true db db' n made) [
        | inl (found, old, same) ↦ cc
        | inr (missing, new, value, tables) ↦
            let (from, of) = normalize_publish-source input accepted n in
            rw tables (
              exists-last _ db.activities (new_activity accepted (q.digest accepted) q.id now) (
                rw (from, of, session, message)
                  (ground
                    (arith, ==-refl (trim_space e.session_id), ==-refl (trim_space e.message_id)))))
      ])
