-- ===== src/IrcSession.antt =====
-- src/irc_session.cpp and src/irc_session.hpp: the protocol side of the bot on IRC. It joins the
-- channel, asks the server who is registered, keeps what waits for the answer, and hands the lines of
-- registered players to the responder. The members that change are a record; unordered_map is a table.
pub mod Speech
pub mod Handling
pub mod Asked
pub mod Trust
pub mod Runs
pub mod Said
use norelecbot.Base.{
  Bool, List, Option, String, [], erase_if, false, get_or, if◌then◌else◌, none, some, true, ℕ, ◌%◌,
  ◌++◌, ◌+◌, ◌-◌, ◌==◌, ◌^◌, ◌∷◌,
}
use norelecbot.Base.Int.{leb_ℤ, ltb_ℤ, pos, ℤ}
use norelecbot.Irc.{Message}
use norelecbot.Table.{Table, erase, insert, lookup}
use norelecbot.Text.{Text, is_empty, lower_name, text_eq, utf8}

pub record SessionConfig : Type 0 where
  pub own_nick : Text
  pub user : Text
  pub realname : Text
  pub nickserv_password : Text
  pub channel : Text
  pub no_forward_prefix : Text
  pub owner_nick : Text
  pub registration_seconds : ℤ
  pub whois_seconds : ℤ

pub record Registration : Type 0 where
  pub registered : Bool
  pub account : Text
  pub expires : ℤ
  pub told : ℤ

pub record Waiting : Type 0 where
  pub nick : Text
  pub text : Text
  pub deadline : ℤ

-- `Session::Identity`: a WHOIS in flight, and what it has said so far.
pub record Whois : Type 0 where
  pub registered : Bool
  pub account : Text

-- Which calls go out of the session: the responder, the sentinel and the pulse, with their arguments.
pub data Call : Type 0 where
  asks_responder : Text → Text → Bool → Text → Call
  tells_sentinel : Text → Text → Bool → ℤ → Call
  tells_pulse : Text → ℤ → Call

pub record IrcLink : Type 0 where
  pub nick : Text
  pub joined : Bool
  pub registrations : Table Registration
  pub asked : Table Whois
  pub waiting : List Waiting

-- What a call of the session does to the outside: lines to send, and calls in order.
pub record Turn : Type 0 where
  pub lines : List Text
  pub calls : List Call

unfoldable pub quiet : Turn
quiet = record { lines = []; calls = [] }

unfoldable pub send : Text → Turn → Turn
send l turn = record turn { lines = turn.lines ++ l ∷ [] }

unfoldable pub call : Call → Turn → Turn
call c turn = record turn { calls = turn.calls ++ c ∷ [] }

-- max_text_bytes of src/irc_protocol.hpp.
abbrev pub max_text_bytes : ℕ
max_text_bytes = 400

-- `-` on `std::size_t`, which wraps around.
unfoldable pub sub_size : ℕ → ℕ → ℕ
sub_size a b = (a + 2 ^ 64 - b) % 2 ^ 64

-- A leading exclamation mark becomes a slash.
unfoldable pub with_slash : Text → Text
with_slash [] = []
with_slash (c ∷ s) = if c == b'!' then b'/' ∷ s else c ∷ s

unfoldable pub unregistered_reply : Text → Text
unfolding utf8
unregistered_reply who =
    who ++ utf8 " per giocare serve un nick registrato e identificato con NickServ."

-- `Message::param`: empty when it is not there.
unfoldable pub param : Message → ℕ → Text
param m i = get_or m.params i []

unfoldable pub is_command_of : Message → String → Bool
unfolding utf8
is_command_of m name = text_eq m.command (utf8 name)

-- The host behind the @ of the prefix, empty without one.
unfoldable pub host_of : Text → Text
host_of [] = []
host_of (c ∷ s) = let rest = host_of s in if c == b'@' then s else rest

-- The first waiting entry is at the front; `deque` is a list.
unfoldable pub is_nick : Text → Waiting → Bool
unfolding lower_name
is_nick lowered w = text_eq (lower_name w.nick) lowered

unfoldable pub fresh_registration : Registration
fresh_registration = record { registered = false; account = []; expires = pos 0; told = pos 0 }

-- The constructor of `Session`.
unfoldable pub new_link : SessionConfig → IrcLink
new_link config = record {
  nick = config.own_nick;
  joined = false;
  registrations = [];
  asked = [];
  waiting = [];
}

-- 307: registered.
unfoldable pub note_registered : Text → IrcLink → IrcLink
unfolding lookup insert
note_registered lowered link = elim (lookup lowered link.asked) [
  | none ↦ link
  | some whois ↦ record link {
    asked = insert lowered (record whois { registered = true }) link.asked;
  }
]

-- 330: registered, under the name of an account.
unfoldable pub note_account : Text → Text → IrcLink → IrcLink
unfolding lookup insert
note_account lowered account link = elim (lookup lowered link.asked) [
  | none ↦ link
  | some whois ↦ if is_empty account then link else record link {
    asked = insert lowered (record { registered = true; account = account }) link.asked;
  }
]

-- 401: the nick is gone.
unfoldable pub forget_nick : Text → IrcLink → IrcLink
unfolding erase is_nick
forget_nick lowered link = record link {
  asked = erase lowered link.asked;
  waiting = erase_if (is_nick lowered) link.waiting;
}

-- `known != end() && known->second.expires > now`
unfoldable pub fresh_answer : Text → ℤ → IrcLink → Option Registration
unfolding lookup
fresh_answer lowered now link = elim (lookup lowered link.registrations) [
  | none ↦ none
  | some entry ↦ if ltb_ℤ now entry.expires then some entry else none
]

-- `tick`: what waited too long goes, with the question; so do the answers that count no longer.
unfoldable pub drop_late : ℤ → List Waiting → Table Whois → List Waiting × Table Whois
unfolding erase lower_name
drop_late now [] asked = ([], asked)
drop_late now (w ∷ ws) asked =
    let late = drop_late now ws (erase (lower_name w.nick) asked) in
    let kept = drop_late now ws asked in if ltb_ℤ now w.deadline then (w ∷ kept.0, kept.1) else late

unfoldable pub is_stale : ℤ → Text × Registration → Bool
is_stale now entry = leb_ℤ entry.1.expires now

unfoldable pub tick : ℤ → IrcLink → IrcLink
unfolding drop_late is_stale
tick now link =
    let (waiting', asked') = drop_late now link.waiting link.asked in
    record link {
      waiting = waiting';
      asked = asked';
      registrations = erase_if (is_stale now) link.registrations;
    }
