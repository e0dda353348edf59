-- ===== src/Event.antt =====
-- `RaidEvent` of src/game.hpp: what is told of a raid, a birth or a child that leaves.
use norelecbot.Base.{Bool, List, Option, [], false, none, not}
use norelecbot.Base.Int.{eqb_ℤ, pos, ℤ}
use norelecbot.State.{ConquisterState}
use norelecbot.Table.{counter}
use norelecbot.Text.{Text}

pub data EventKind : Type 0 where
  stolen delivered returned born gone : EventKind

pub record RaidEvent : Type 0 where
  pub kind : EventKind
  pub raider : Text
  pub target : Text
  pub loot : ℤ
  pub intercepted : Bool
  pub sneaked : Bool
  pub alarmed : Bool
  pub boarded : Text
  pub eaten : Text
  pub salted : ℤ
  pub spared : ℤ
  pub pleaded_percent : ℤ
  pub gift : ℤ
  pub gift_emoji : Text
  pub no_room : Bool
  pub intact : Bool
  pub gift_with_him : Bool
  pub blown : List Text
  pub backfired : Bool
  pub reset : Bool
  pub expecting : ℤ
  pub froze : ℤ
  pub melted : Bool
  pub nobody_home : Bool
  pub sent_back : Bool
  pub raider_emoji : Text
  pub target_emoji : Text
  pub raider_emoji_before : Option Text
  pub target_emoji_before : Option Text
  pub raider_smeared : Bool
  pub target_smeared : Bool
  pub raider_pugliese : Bool
  pub target_pugliese : Bool
  pub distance : ℤ
  pub seconds : ℤ
  pub raider_percent : ℤ
  pub target_percent : ℤ
  pub undefended : Bool
  pub golden : Bool
  pub balloon_held : Bool
  pub balloon_popped : Bool
  pub next_chance : ℤ
  pub target_on_telegram : Bool
  pub raider_on_telegram : Bool

-- `RaidEvent{}`
abbrev pub fresh_event : RaidEvent
fresh_event = record {
  kind = EventKind.stolen;
  raider = [];
  target = [];
  loot = pos 0;
  intercepted = false;
  sneaked = false;
  alarmed = false;
  boarded = [];
  eaten = [];
  salted = pos 0;
  spared = pos 0;
  pleaded_percent = pos 0;
  gift = pos 0;
  gift_emoji = [];
  no_room = false;
  intact = false;
  gift_with_him = false;
  blown = [];
  backfired = false;
  reset = false;
  expecting = pos 0;
  froze = pos 0;
  melted = false;
  nobody_home = false;
  sent_back = false;
  raider_emoji = [];
  target_emoji = [];
  raider_emoji_before = none;
  target_emoji_before = none;
  raider_smeared = false;
  target_smeared = false;
  raider_pugliese = false;
  target_pugliese = false;
  distance = pos 0;
  seconds = pos 0;
  raider_percent = pos 100;
  target_percent = pos 100;
  undefended = false;
  golden = false;
  balloon_held = false;
  balloon_popped = false;
  next_chance = pos 0;
  target_on_telegram = false;
  raider_on_telegram = false;
}

unfoldable pub on_telegram : ConquisterState → Text → Bool
on_telegram state player = not (eqb_ℤ (counter state.telegram_ids player) (pos 0))
