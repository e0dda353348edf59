-- ===== src/Sentinel/Blocked.antt =====
-- Keeping an account out and letting it back in.
use norelecbot.Base.{arith, false, if◌then◌else◌, true, ◌≡◌}
use norelecbot.Base.Int.{ltb_ℤ, pos, ℤ}
use norelecbot.Sentinel.{Sentinel, block, blocked_until, tell_blocked, unblock}
use norelecbot.SortedMap.{lookup-put}
use norelecbot.Table.{Keyed, lookup-erase_ne}
use norelecbot.Table.Keyed.{contains-erase_self}
use norelecbot.Text.{Text, text_eq, text_eq_iff, text_eq_refl}

-- When the blocks and what was told are maps, with each key once, and the account is another than the
-- one blocked: a block lasts until its time and leaves the other account alone, and once it is lifted
-- the account is let in at any time, and told at once if it is blocked anew.
pub block-unblock :
    (key other : Text) (until now later : ℤ) (s : Sentinel)
    → Keyed s.blocked
    → Keyed s.told
    → text_eq key other ≡ false
    → (blocked_until key now (block key until s) ≡ (if ltb_ℤ now until then until else pos 0))
      × (blocked_until other now (block key until s) ≡ blocked_until other now s)
      × (blocked_until key later (unblock key s).1 ≡ pos 0)
      × (blocked_until other later (unblock key s).1 ≡ blocked_until other later s)
      × ((tell_blocked key now (block key until (unblock key s).1)).0 ≡ true)
unfolding blocked_until block unblock tell_blocked
block-unblock key other until now later s blocked told ne = (
  ground (arith, lookup-put key key until s.blocked, text_eq_refl key),
  ground (arith, lookup-put key other until s.blocked),
  ground (arith, contains-erase_self key s.blocked blocked),
  ground (arith, lookup-erase_ne key other s.blocked, text_eq_iff key other),
  ground (arith, contains-erase_self key s.told told),
)
