-- ===== src/State.antt =====
-- The game's state as src/storage.hpp declares it. `std::int64_t` is ℤ, `std::size_t` is ℕ.
use norelecbot.Base.{Bool, List, Option, [], false, none, ℕ}
use norelecbot.Base.Int.{pos, ℤ}
use norelecbot.Table.{Authors, Counters}
use norelecbot.Text.{Text}

pub record Holder : Type 0 where
  pub user_id : ℤ
  pub username : Text
  pub since : ℤ
  pub lightning_percent : ℤ
  pub bolts : ℤ
  pub banked : ℤ
  pub counted_from : ℤ
  -- `std::map` by slot, in ascending order.
  pub lobsters : List (ℕ × Text)

pub record Raid : Type 0 where
  pub raider : Text
  pub target : Text
  pub arrive : ℤ
  pub back : ℤ
  pub arrived : Bool
  pub loot : ℤ
  pub gift : ℤ
  pub gift_emoji : Text
  pub intact : Bool

pub record Pregnancy : Type 0 where
  pub mother : Text
  pub father : Text
  pub due : ℤ

pub record Child : Type 0 where
  pub owner : Text
  pub slot : ℤ
  pub male : Bool
  pub born : ℤ
  pub courted : Bool

pub record Knock : Type 0 where
  pub raider : Text
  pub target : Text
  pub at : ℤ

pub record ConquisterState : Type 0 where
  pub current : Option Holder
  pub scores : Counters
  pub quotes_added : Counters
  pub balloons : Counters
  pub cooldowns : Counters
  pub ids : Counters
  pub telegram_ids : Counters
  pub irc_names : Counters
  pub accounts : Authors
  pub display_names : Authors
  pub telegram_names : Authors
  pub irc_nicks : Authors
  pub link_requests : Authors
  pub raids : List Raid
  pub quote_authors : Authors
  pub furniture : Authors
  pub debugging : Counters
  pub smeared : Counters
  pub welcomed : Counters
  pub frozen : Counters
  pub pregnancies : List Pregnancy
  pub children : List Child
  pub eggs_at : ℤ
  pub knocks : List Knock
  pub equipped : Authors
  pub split : Bool
  pub pugliesi : Counters
  pub joined : Counters
  pub guided : Counters
  pub entered : Counters
  pub invited_by : Authors
  pub invite_days : Counters
  pub invite_last_day : Counters
  pub invite_paid : Counters

-- `ConquisterState{}`: what a missing file counts as.
unfoldable pub empty_state : ConquisterState
empty_state = record {
  current = none;
  scores = [];
  quotes_added = [];
  balloons = [];
  cooldowns = [];
  ids = [];
  telegram_ids = [];
  irc_names = [];
  accounts = [];
  display_names = [];
  telegram_names = [];
  irc_nicks = [];
  link_requests = [];
  raids = [];
  quote_authors = [];
  furniture = [];
  debugging = [];
  smeared = [];
  welcomed = [];
  frozen = [];
  pregnancies = [];
  children = [];
  eggs_at = pos 0;
  knocks = [];
  equipped = [];
  split = false;
  pugliesi = [];
  joined = [];
  guided = [];
  entered = [];
  invited_by = [];
  invite_days = [];
  invite_last_day = [];
  invite_paid = [];
}
