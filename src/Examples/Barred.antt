-- ===== src/Examples/Barred.antt =====
-- The theorem on accounts that are kept out, at one that wants to ride all the same.
use norelecbot.Base.{[], false, refl, true, ◌∷◌, ◌≡◌}
use norelecbot.Base.Int.{pos}
use norelecbot.Command.Barred.{dispatch-is_kept_out, is_kept_out}
use norelecbot.Command.Dispatch.{dispatch}
use norelecbot.Command.OldLine.{Bound, remember_sender}
use norelecbot.Command.Verbs.{CommandContext}
use norelecbot.Config.{fresh_config}
use norelecbot.Examples.{anna, game}
use norelecbot.Identity.{platform_key}
use norelecbot.Rules.{utc}
use norelecbot.Sentinel.{block, blocked_until, fresh_sentinel}
use norelecbot.Text.{Text, text_eq, utf8}

abbrev kept_out : CommandContext
kept_out = record {
  config = fresh_config;
  user_id = pos 0;
  username = anna;
  account_name = [];
  claims_allowed = true;
  owner = false;
  admin = false;
}

abbrev irc_anna : Text
irc_anna = b'i' ∷ b'r' ∷ b'c' ∷ b':' ∷ b'a' ∷ b'n' ∷ []

abbrev blocked_anna : Bound
blocked_anna = record {
  key = [];
  state = record game { accounts = (irc_anna, anna) ∷ [] };
  sentinel = block anna (pos 900) fresh_sentinel;
}

dispatch-is_kept_out_example :
    is_kept_out (dispatch utc kept_out (pos 500) (utf8 "/raid bruno") blocked_anna).0 ≡ true
unfolding blocked_until remember_sender block fresh_sentinel text_eq platform_key
dispatch-is_kept_out_example =
    dispatch-is_kept_out utc kept_out (pos 500) (utf8 "/raid bruno") blocked_anna refl refl refl
