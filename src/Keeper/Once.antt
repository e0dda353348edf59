-- ===== src/Keeper/Once.antt =====
-- The daily round of the sentinel: whom it keeps out, and when it comes again.
use norelecbot.Base.{
  List, [], any_of, ap, arith, if◌then◌else◌, refl, some, sym, true, ◌∙◌, ◌∷◌, ◌≡◌,
}
use norelecbot.Base.Int.{int_laws, ltb_ℤ, ℤ, ◌+ℤ◌}
use norelecbot.Config.{AppConfig}
use norelecbot.Keeper.{block_each, block_seconds, is_round_due, sentinel_round}
use norelecbot.Sentinel.{Sentinel, block, blocked_until, set_reported_day}
use norelecbot.Sentinel.Judge.{judge, judge_all, scripts}
use norelecbot.SortedMap.{lookup-put, put}
use norelecbot.Table.{lookup}
use norelecbot.Text.{Text, text_eq, text_eq_iff}
use norelecbot.Zodiac.{Zone}

any_of-block_each :
    (key : Text) (keys : List Text) (until : ℤ) (s : Sentinel)
    → lookup key (block_each keys until s).blocked
      ≡ (if any_of (text_eq key) keys then some until else lookup key s.blocked)
unfolding block_each block any_of
any_of-block_each key [] until s = refl
any_of-block_each key (one ∷ keys) until s = ground (
  arith,
  any_of-block_each key keys until (record s { blocked = put one until s.blocked }),
  lookup-put one key until s.blocked,
  text_eq_iff key one,
  text_eq_iff one key,
)

reported-block_each :
    (keys : List Text) (until : ℤ) (s : Sentinel)
    → (block_each keys until s).reported_day ≡ s.reported_day
unfolding block_each block
reported-block_each [] until s = refl
reported-block_each (one ∷ keys) until s = reported-block_each keys until (block one until s)

-- Whom the sentinel is sure of does not hang on the day of its report.
scripts-set_reported_day :
    (zone : Zone) (s : Sentinel) (day now : ℤ)
    → scripts zone (set_reported_day day s) now ≡ scripts zone s now
unfolding scripts set_reported_day judge judge_all
scripts-set_reported_day zone s day now = refl

round-due :
    (config : AppConfig) (zone : Zone) (now : ℤ) (s : Sentinel)
    → is_round_due config zone now s ≡ true
    → sentinel_round config zone now s
      ≡ block_each
          (scripts zone s now)
          (now +ℤ block_seconds)
          (set_reported_day (zone.local_day now) s)
unfolding sentinel_round
round-due config zone now s due = rw due (
    ap (λ keys. block_each keys (now +ℤ block_seconds) (set_reported_day (zone.local_day now) s))
      (scripts-set_reported_day zone s (zone.local_day now) now))

not_due_again :
    (config : AppConfig) (zone : Zone) (later : ℤ) (s : Sentinel)
    → s.reported_day ≡ zone.local_day later
    → sentinel_round config zone later s ≡ s
unfolding sentinel_round is_round_due
not_due_again config zone later s told = ground arith

kept_out_for_a_day :
    (now : ℤ) (key : Text) (keys : List Text) (s : Sentinel)
    → blocked_until key now (block_each keys (now +ℤ block_seconds) s)
      ≡ (if any_of (text_eq key) keys then now +ℤ block_seconds else blocked_until key now s)
unfolding blocked_until
kept_out_for_a_day now key keys s =
    let tomorrow : ltb_ℤ now (now +ℤ block_seconds) ≡ true = grind (int_laws) in
    ground (arith, any_of-block_each key keys (now +ℤ block_seconds) s)

-- When the round is due: whoever the sentinel is sure is a script is kept out for a day, nobody else's
-- block changes, and a later round of the same day does nothing.
pub sentinel_round_once :
    (config : AppConfig) (zone : Zone) (now later : ℤ) (s : Sentinel) (key : Text)
    → is_round_due config zone now s ≡ true
    → zone.local_day later ≡ zone.local_day now
    → (blocked_until key now (sentinel_round config zone now s) ≡ (
        if any_of (text_eq key) (scripts zone s now)
        then now +ℤ block_seconds
        else blocked_until key now s))
      × (sentinel_round config zone later (sentinel_round config zone now s)
          ≡ sentinel_round config zone now s)
sentinel_round_once config zone now later s key due same =
    let day = zone.local_day now in
    let after = round-due config zone now s due in
    let today : (sentinel_round config zone now s).reported_day ≡ zone.local_day later =
      ap (λ t. t.reported_day) after
      ∙ reported-block_each (scripts zone s now) (now +ℤ block_seconds) (set_reported_day day s)
      ∙ told_today day
      ∙ sym same in
    (
      ap (blocked_until key now) after
          ∙ kept_out_for_a_day now key (scripts zone s now) (set_reported_day day s)
          ∙ unchanged day,
      not_due_again config zone later (sentinel_round config zone now s) today,
    )
  where
    told_today : (day : ℤ) → (set_reported_day day s).reported_day ≡ day
    told_today day = unfold set_reported_day in refl

    unchanged :
        (day : ℤ)
        → (if any_of (text_eq key) (scripts zone s now)
            then now +ℤ block_seconds
            else blocked_until key now (set_reported_day day s))
          ≡ (if any_of (text_eq key) (scripts zone s now)
              then now +ℤ block_seconds
              else blocked_until key now s)
    unchanged day = unfold set_reported_day blocked_until in refl
