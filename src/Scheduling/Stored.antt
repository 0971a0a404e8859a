-- ===== src/Scheduling/Stored.antt =====
-- A definition in normal form is normalized to itself, so a stored definition can be read again.
use marvo.Base.{◌≡◌, refl, arith, Option, none, some, string_eq, nat_eq, text_iff, trim_space}
use marvo.Scheduling.{
  Instant, Kind, at, every, cron, adaptive, other, Definition, CronLibrary, has_every_fields,
  has_adaptive_fields, normalize, normalize_trimmed, normalize_kind, normalize_at, normalize_every,
  normalize_cron, normalize_adaptive, trimmed,
}
use marvo.Scheduling.Normal.{IsNormalKind, IsNormal, IsAhead}

normal-normalize_at :
    (lib : CronLibrary) (d : Definition) (now : Instant) (o : Option Instant)
    → d.spec.at_time ≡ o
    → IsNormalKind lib at d
    → IsAhead at o now
    → normalize_at d now o ≡ some d
unfolding normalize_at has_every_fields has_adaptive_fields
normal-normalize_at lib d now none e n a = ground (arith, n.0.1)
normal-normalize_at lib d now (some t) e n a =
    ground (arith, text_iff d.spec.expression "", text_iff d.timezone "")

normal-normalize_kind :
    (lib : CronLibrary) (d : Definition) (now : Instant) (k : Kind)
    → IsNormalKind lib k d
    → IsAhead k d.spec.at_time now
    → normalize_kind lib k d now ≡ some d
unfolding normalize_kind normalize_at normalize_every normalize_cron normalize_adaptive
    has_every_fields has_adaptive_fields
normal-normalize_kind lib d now at n a = normal-normalize_at lib d now d.spec.at_time refl n a
normal-normalize_kind lib d now every n a =
    ground (arith, text_iff d.spec.expression "", text_iff d.timezone "")
normal-normalize_kind lib d now cron n a =
    ground (arith, text_iff d.spec.expression "", text_iff d.timezone "")
normal-normalize_kind lib d now adaptive n a =
    ground (arith, text_iff d.spec.expression "", text_iff d.timezone "")
normal-normalize_kind lib d now (other k) n a = absurd n

trimmed-normal :
    (d : Definition)
    → trim_space d.timezone ≡ d.timezone
    → trim_space d.spec.expression ≡ d.spec.expression
    → trimmed d ≡ d
unfolding trimmed
trimmed-normal d e f = ground arith

-- A normal definition is accepted as it is: by `Normalize` at any time, if it is no one-shot or the
-- one-shot lies ahead. So `Normalize` is idempotent.
pub normalize_of_normal :
    (lib : CronLibrary) (d : Definition) (now : Instant)
    → IsNormal lib d
    → IsAhead d.kind d.spec.at_time now
    → normalize lib d now ≡ some d
unfolding normalize normalize_trimmed
normalize_of_normal lib d now n a =
    simp (trimmed-normal d n.3 n.4) (ground (arith, normal-normalize_kind lib d now d.kind n.0 a))
