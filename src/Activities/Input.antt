-- ===== src/Activities/Input.antt =====
-- internal/store/activity.go: what is accepted as an activity and as a response. A text is well formed, so
-- `utf8.ValidString` holds.
use Prim.Native.Char.{code}
use Prim.Native.String.{len, count}
use marvo.Base.{
  String, Bool, false, not, ◌&&◌, ◌||◌, List, [], ◌∷◌, ltb, if◌then◌else◌, ◌==◌, string_eq, nat_eq,
  exists, length, trim_space,
}
use marvo.Sql.{Result, ok, err}
use marvo.Activities.{
  Error, invalid_activity, Activity, kind_notice, kind_choice, max_title_runes, max_content_bytes,
  max_choices, max_choice_runes,
}

pub record ActivityPublish : Type 0 where
  pub kind : String
  pub title : String
  pub content : String
  pub choices : List String
  pub multiple : Bool
  pub source_session_id : String
  pub source_message_id : String

-- strings.ContainsAny(s, "\r\n")
unfoldable pub has_line_break : String → Bool
has_line_break String.[] = false
has_line_break (String.◌∷◌ c s) = code c == 13 || code c == 10 || has_line_break s

abbrev pub is_choice : String → Bool
is_choice choice =
    not (choice == "" || ltb max_choice_runes (count choice) || has_line_break choice)

-- The loop of `normalizeActivityChoices` over what is left, with the choices so far, newest first.
unfoldable pub collect_choices : List String → List String → Result Error (List String)
collect_choices seen [] = ok []
collect_choices seen (raw ∷ rest) =
    let choice = trim_space raw in
    let more = collect_choices (choice ∷ seen) rest in
    if is_choice choice && not (exists (λ s. s == choice) seen)
    then (elim more [ ok result ↦ ok (choice ∷ result) | err e ↦ err e ])
    else err invalid_activity

unfoldable pub normalize_choices : List String → Result Error (List String)
unfolding collect_choices
normalize_choices choices =
    if ltb max_choices (length choices) then err invalid_activity else collect_choices [] choices

-- The loop of `normalizeActivityResponseChoices`: a choice that is there already is passed over.
unfoldable pub collect_responses :
    List String → List String → List String → Result Error (List String)
collect_responses allowed seen [] = ok []
collect_responses allowed seen (raw ∷ rest) =
    let choice = trim_space raw in
    let known = collect_responses allowed seen rest in
    let added = collect_responses allowed (choice ∷ seen) rest in
    if not (exists (λ s. s == choice) allowed)
    then err invalid_activity
    else if exists (λ s. s == choice) seen
    then known
    else (elim added [ ok result ↦ ok (choice ∷ result) | err e ↦ err e ])

unfoldable pub normalize_response_choices : Activity → List String → Result Error (List String)
unfolding collect_responses
normalize_response_choices a choices =
    if a.kind == kind_notice
    then (if not (length choices == 0) then err invalid_activity else ok [])
    else if ltb (length a.choices) (length choices)
    then err invalid_activity
    else if not a.multiple && ltb 1 (length choices)
    then err invalid_activity
    else collect_responses a.choices [] choices

unfoldable pub is_source : String → Bool
is_source value = not (value == "" || ltb 256 (len value) || has_line_break value)

abbrev pub trimmed : ActivityPublish → ActivityPublish
trimmed input = record input {
  kind = trim_space input.kind;
  title = trim_space input.title;
  content = trim_space input.content;
  source_session_id = trim_space input.source_session_id;
  source_message_id = trim_space input.source_message_id;
}

-- The guards of `normalizeActivityPublish` before the choices.
unfoldable pub is_publish : ActivityPublish → Bool
unfolding is_source
is_publish input =
    (input.kind == kind_notice || input.kind == kind_choice)
    && not (
        input.title == ""
        || ltb max_title_runes (count input.title)
        || input.content == ""
        || ltb max_content_bytes (len input.content))
    && is_source input.source_session_id
    && is_source input.source_message_id

unfoldable pub with_choices :
    ActivityPublish → Result Error (List String) → Result Error ActivityPublish
with_choices input (err e) = err e
with_choices input (ok choices) =
    if input.kind == kind_notice && (not (length choices == 0) || input.multiple)
    then err invalid_activity
    else if input.kind == kind_choice && ltb (length choices) 2
    then err invalid_activity
    else ok (record input { choices = choices })

unfoldable pub normalize_publish : ActivityPublish → Result Error ActivityPublish
unfolding is_publish with_choices
normalize_publish input =
    let t = trimmed input in
    if is_publish t then with_choices t (normalize_choices input.choices) else err invalid_activity
