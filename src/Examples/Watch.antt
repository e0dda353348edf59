-- ===== src/Examples/Watch.antt =====
-- The theorems on the sentinel, at one ride and one block.
use norelecbot.Base.{[], any_of, arith, false, if◌then◌else◌, refl, true, ◌&&◌, ◌∷◌, ◌≡◌}
use norelecbot.Base.Int.{pos, ◌%ℤ◌, ◌+ℤ◌, ◌-ℤ◌, ◌/ℤ◌}
use norelecbot.Config.{AppConfig, fresh_config}
use norelecbot.Keeper.{block_seconds, is_round_due, sentinel_round}
use norelecbot.Keeper.Once.{sentinel_round_once}
use norelecbot.Rules.{utc}
use norelecbot.Sentinel.{
  Sentinel, block, blocked_until, fresh_sentinel, remembered_seconds, ride, tell_blocked, unblock,
}
use norelecbot.Sentinel.Blocked.{block-unblock}
use norelecbot.Sentinel.Judge.{scripts}
use norelecbot.Sentinel.Judge.Sure.{is_script, scripts_exact, watched_a_day}
use norelecbot.Sentinel.Memory.{IsRecent}
use norelecbot.Sentinel.Memory.Bound.{Watches, Watches-IsRecent}
use norelecbot.Text.{text_eq, utf8}

abbrev one_ride : Sentinel
one_ride = ride (utf8 "anna") (utf8 "bruno") false (pos 1000000) fresh_sentinel

Watches-IsRecent_example : IsRecent (pos 1000000 -ℤ (remembered_seconds +ℤ pos 3600)) one_ride
Watches-IsRecent_example =
    Watches-IsRecent (pos 1000000) one_ride
      (Watches.rides (utf8 "anna") (utf8 "bruno") false (pos 1000000) (omega arith) Watches.begins)

block-unblock_example :
    (blocked_until (utf8 "anna") (pos 5) (block (utf8 "anna") (pos 9) one_ride) ≡ pos 9)
    × (blocked_until (utf8 "bruno") (pos 5) (block (utf8 "anna") (pos 9) one_ride)
        ≡ blocked_until (utf8 "bruno") (pos 5) one_ride)
    × (blocked_until (utf8 "anna") (pos 7) (unblock (utf8 "anna") one_ride).1 ≡ pos 0)
    × (blocked_until (utf8 "bruno") (pos 7) (unblock (utf8 "anna") one_ride).1
        ≡ blocked_until (utf8 "bruno") (pos 7) one_ride)
    × ((tell_blocked
          (utf8 "anna")
          (pos 5)
          (block (utf8 "anna") (pos 9) (unblock (utf8 "anna") one_ride).1)).0
        ≡ true)
unfolding ride fresh_sentinel text_eq ◌-ℤ◌ utf8
block-unblock_example =
    block-unblock (utf8 "anna") (utf8 "bruno") (pos 9) (pos 5) (pos 7) one_ride tt tt refl

scripts_exact_example : any_of (text_eq (utf8 "anna")) (scripts utc one_ride (pos 2000000)) ≡ (
    watched_a_day one_ride (pos 2000000)
    && any_of
        (λ e. text_eq (utf8 "anna") e.0 && is_script utc one_ride (pos 2000000) e)
        one_ride.players)
scripts_exact_example = scripts_exact utc one_ride (pos 2000000) (utf8 "anna")

abbrev owned : AppConfig
owned = record fresh_config { owner_ids = pos 1 ∷ []; bot_token = b't' ∷ [] }

-- Nine in the morning of the second day.
sentinel_round_once_example :
    (blocked_until (utf8 "anna") (pos 1155600) (sentinel_round owned utc (pos 1155600) one_ride) ≡ (
      if any_of (text_eq (utf8 "anna")) (scripts utc one_ride (pos 1155600))
      then pos 1155600 +ℤ block_seconds
      else blocked_until (utf8 "anna") (pos 1155600) one_ride))
    × (sentinel_round owned utc (pos 1155700) (sentinel_round owned utc (pos 1155600) one_ride)
        ≡ sentinel_round owned utc (pos 1155600) one_ride)
unfolding is_round_due ◌/ℤ◌ ◌%ℤ◌ fresh_config ride ◌-ℤ◌ fresh_sentinel
sentinel_round_once_example =
    sentinel_round_once owned utc (pos 1155600) (pos 1155700) one_ride (utf8 "anna") refl refl
