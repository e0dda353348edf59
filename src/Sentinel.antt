-- ===== src/Sentinel.antt =====
-- src/sentinel.hpp and src/sentinel.cpp: what the sentinel sees of every account, what it forgets, and
-- whom it keeps out. `std::map` is a table in the order of its keys; the lock around every call is left
-- out, since each call runs alone.
pub mod Memory
pub mod Blocked
pub mod Timing
pub mod Signs
pub mod Judge
use norelecbot.Base.{
  Bool, List, [], erase_if, false, if◌then◌else◌, map, none, some, true, ◌++◌, ◌∷◌,
}
use norelecbot.Base.Int.{eqb_ℤ, ltb_ℤ, pos, ℤ, ◌-ℤ◌}
use norelecbot.SortedMap.{at_key, put}
use norelecbot.Table.{Table, contains, erase, lookup}
use norelecbot.Text.{Text, is_empty}

-- `Sentinel::Act`: 0 a ride to rob, 1 a ride to give, 2 a try at the place.
pub record Act : Type 0 where
  pub at : ℤ
  pub kind : ℤ
  pub target : Text

-- `Sentinel::Player`
pub record Watched : Type 0 where
  pub first_seen : ℤ
  pub acts : List Act
  pub backs : List ℤ
  pub robbed_by : List (ℤ × Text)

-- `Sentinel::Identity`
pub record Speaker : Type 0 where
  pub player : Text
  pub host : Text
  pub commands : List ℤ
  pub chats : List ℤ

pub record Sentinel : Type 0 where
  pub started : ℤ
  pub reported_day : ℤ
  pub forgotten : ℤ
  pub players : Table Watched
  pub identities : Table Speaker
  pub blocked : Table ℤ
  pub told : Table ℤ

unfoldable pub fresh_watched : Watched
fresh_watched = record { first_seen = pos 0; acts = []; backs = []; robbed_by = [] }

unfoldable pub fresh_speaker : Speaker
fresh_speaker = record { player = []; host = []; commands = []; chats = [] }

unfoldable pub fresh_sentinel : Sentinel
fresh_sentinel = record {
  started = pos 0;
  reported_day = pos 0;
  forgotten = pos 0;
  players = [];
  identities = [];
  blocked = [];
  told = [];
}

-- A week.
abbrev pub remembered_seconds : ℤ
remembered_seconds = pos 604800

unfoldable pub forget_before : List ℤ → ℤ → List ℤ
unfolding erase_if
forget_before times oldest = erase_if (λ at. ltb_ℤ at oldest) times

-- The three lists of a player without what is older.
unfoldable pub recent_of : ℤ → Watched → Watched
unfolding erase_if forget_before
recent_of oldest p = record p {
  acts = erase_if (λ act. ltb_ℤ act.at oldest) p.acts;
  backs = forget_before p.backs oldest;
  robbed_by = erase_if (λ robbery. ltb_ℤ robbery.0 oldest) p.robbed_by;
}

unfoldable pub recent_speaker : ℤ → Speaker → Speaker
unfolding forget_before
recent_speaker oldest i = record i {
  commands = forget_before i.commands oldest;
  chats = forget_before i.chats oldest;
}

-- `forget`: once an hour at most.
unfoldable pub forget : ℤ → Sentinel → Sentinel
unfolding recent_of recent_speaker
forget now s = if ltb_ℤ (now -ℤ s.forgotten) (pos 3600) then s else record s {
  forgotten = now;
  players = map (λ e. (e.0, recent_of (now -ℤ remembered_seconds) e.1)) s.players;
  identities = map (λ e. (e.0, recent_speaker (now -ℤ remembered_seconds) e.1)) s.identities;
}

unfoldable pub start_watching : ℤ → Sentinel → Sentinel
start_watching now s = if eqb_ℤ s.started (pos 0) then record s { started = now } else s

unfoldable pub seen_at : ℤ → Watched → Watched
seen_at now p = if eqb_ℤ p.first_seen (pos 0) then record p { first_seen = now } else p

-- `player(key, now)`, and what the caller does to the reference it returns.
unfoldable pub with_player : Text → ℤ → (Watched → Watched) → Sentinel → Sentinel
unfolding start_watching forget seen_at put at_key fresh_watched
with_player key now change s =
    let s' = forget now (start_watching now s) in
    record s' {
      players = put key (change (seen_at now (at_key key fresh_watched s'.players))) s'.players;
    }

unfoldable pub add_act : Act → Watched → Watched
add_act act p = record p { acts = p.acts ++ act ∷ [] }

unfoldable pub ride : Text → Text → Bool → ℤ → Sentinel → Sentinel
unfolding with_player add_act
ride key target gift now =
    with_player key now
      (add_act (record { at = now; kind = if gift then pos 1 else pos 0; target = target }))

unfoldable pub claim : Text → ℤ → Sentinel → Sentinel
unfolding with_player add_act
claim key now = with_player key now (add_act (record { at = now; kind = pos 2; target = [] }))

unfoldable pub add_back : ℤ → Watched → Watched
add_back now p = record p { backs = p.backs ++ now ∷ [] }

unfoldable pub came_back : Text → ℤ → Sentinel → Sentinel
unfolding with_player add_back
came_back key now = with_player key now (add_back now)

unfoldable pub add_robbery : ℤ → Text → Watched → Watched
add_robbery now robber p = record p { robbed_by = p.robbed_by ++ (now, robber) ∷ [] }

unfoldable pub robbed : Text → Text → ℤ → Sentinel → Sentinel
unfolding with_player add_robbery
robbed victim robber now = with_player victim now (add_robbery now robber)

unfoldable pub spoke : Text → Bool → ℤ → Speaker → Speaker
spoke host command now i =
    let i' : Speaker = if is_empty host then i else record i { host = host } in
    if command
    then record i' { commands = i'.commands ++ now ∷ [] }
    else record i' { chats = i'.chats ++ now ∷ [] }

unfoldable pub heard : Text → Text → Bool → ℤ → Sentinel → Sentinel
unfolding start_watching forget spoke put at_key fresh_speaker
heard identity host command now s =
    let s' = forget now (start_watching now s) in
    record s' {
      identities =
          put identity (spoke host command now (at_key identity fresh_speaker s'.identities))
            s'.identities;
    }

unfoldable pub link_identity : Text → Text → Sentinel → Sentinel
unfolding put at_key fresh_speaker
link_identity identity key s = record s {
  identities =
      put identity (record (at_key identity fresh_speaker s.identities) { player = key })
        s.identities;
}

unfoldable pub block : Text → ℤ → Sentinel → Sentinel
unfolding put
block key until s = record s { blocked = put key until s.blocked }

-- Whether he was blocked, and the sentinel after.
unfoldable pub unblock : Text → Sentinel → Bool × Sentinel
unfolding erase lookup
unblock key s =
    (contains key s.blocked, record s { told = erase key s.told; blocked = erase key s.blocked })

unfoldable pub blocked_until : Text → ℤ → Sentinel → ℤ
unfolding lookup
blocked_until key now s = elim (lookup key s.blocked) [
  | none ↦ pos 0
  | some until ↦ if ltb_ℤ now until then until else pos 0
]

unfoldable pub tell_blocked : Text → ℤ → Sentinel → Bool × Sentinel
unfolding lookup put
tell_blocked key now s =
    let again : Bool × Sentinel = (true, record s { told = put key now s.told }) in
    elim (lookup key s.told) [
      | none ↦ again
      | some at ↦ if ltb_ℤ (now -ℤ at) (pos 3600) then (false, s) else again
    ]

unfoldable pub set_reported_day : ℤ → Sentinel → Sentinel
set_reported_day day s = record s { reported_day = day }
