-- ===== src/Lib.antt =====
-- norelecbot: the game of an IRC and Telegram bot, modelled from its C++ sources.
--
-- Players collect palle by holding @TheConquister37, ride to the houses of others to rob them or to
-- bring something, hang emoji in their houses and on themselves, and collect quotes. Every command is a
-- call of src/game.cpp that runs one transaction of src/storage.cpp on the game's state; the texts come
-- through src/text.cpp. On IRC the lines go through src/irc_protocol.cpp to src/irc_session.cpp, which asks
-- the server who is registered before it hands a line to the commands, and tells src/sentinel.cpp who was
-- heard and src/pulse.cpp what was said; the sentinel watches for scripts, the pulse counts.
-- src/config.cpp reads the settings.
--
-- How the files follow the code:
--   Base: Boolean tests, lists over the native numbers, signed integers (ℤ) and the rule set int_laws.
--   Text, Text/Emoji, Text/Mentions, Text/Number: src/text.cpp. A text is its bytes.
--   Table, SortedMap, State: src/storage.hpp. An ordered_map is a list of pairs in file order, a std::map one
--   in the order of its keys, an unordered_map one in any order.
--   Session: StorageSession of src/storage.cpp, as a monad with a state and exceptions. The random draws
--   are a given sequence, reduced to the range asked for; copies of the file are the list of their tags;
--   what the sentinel is told is a list of notices.
--   Storage: the documents of src/storage.cpp. Storage/Reading with Document, Tables and Sections is
--   parse_state, Storage/Written is state_to_json, Storage/Atomic is load_state, load_quotes and save.
--   The JSON library is the parameter JsonLib of Storage/Json, with the laws it documents; whether a
--   write to a file comes off is a parameter, which may say no at any write.
--   Zodiac: src/zodiac.cpp. The local day and hour of an instant are parameters (Zone).
--   Power, Slots, Place, Gear: the emoji with a power, the slots of a house and of a player, where he is.
--   Hold, Balloon, Claim, Claim/Result, Claim/Contest: conquister_claim and what it calls, step by step.
--   Identity, Invites, Link: player_id to known_players, player_seen, player_link, guide_due,
--   invite_record and invite_due.
--   Position: src/position.cpp. hypot and llround on whole coordinates are the rounded root.
--   Rules, Event, Landing, Family, Raid with Raid/Request, Raid/Homewards and Raid/Depart, Raid/Due with
--   Raid/Change, Raid/Rob, Raid/Deliver and Raid/Arrive: raid_start, raid_due and what happens on the
--   way. A ride that the source changes through a reference is changed at its index.
--   Burn, Furniture, Equip, SortOut: palle_burn, furniture_burn, furniture_buy, furniture_move,
--   gear_take, gear_store and equipment_sort_out.
--   Ranking: conquister_leaderboard, conquister_user, returning_in, names_player and the debug switches.
--   Quotes: quote_add, quote_page_load, quote_random and quote_delete.
--   Irc: src/irc_protocol.cpp.
--   IrcSession, IrcSession/Speech, IrcSession/Handling: src/irc_session.cpp. A call returns the session, the
--   lines to send and the calls it made of the responder, the sentinel and the pulse, in order; what the
--   responder answers is a parameter, which sees the calls made before. IrcSession/Runs has the runs of a
--   session as a relation.
--   Command: the readers of a message in src/commands.cpp, from raid_target to sentinel_identity.
--   Command/Verbs, Command/OldLine and Command/Dispatch: dispatch, up to the handler it calls (Deed), with
--   player_seen, the sentinel's block and what it says by itself (Refusal).
--   Sentinel: what src/sentinel.cpp is told, and its blocks. Sentinel/Timing and Sentinel/Signs are
--   script_signs, Sentinel/Judge is judge and scripts. A finding is its sign and numbers without the words.
--   Pulse: src/pulse.cpp, without its file. Pulse/Tally has what its counts stand for.
--   Keeper: golden_round, sentinel_round and event_name of src/raids.cpp.
--   Config, Config/Fields, Config/Settings: src/config.cpp. The lines of the file and the environment are
--   parameters.
--   Examples: runs on small games. The other child modules hold the proofs about their parent.
--
-- std::int64_t is ℤ without bounds, the percent in hold_value and the sum in settle_hold included; where the
-- source guards against overflow the guard is modelled, with the exception as a Fault or as none.
-- std::size_t is ℕ. Loops are structural recursion on the text, the list or the index; those that take a
-- whole token or piece at once run on fuel, the length of the text, and take a byte in every round. The loop
-- that draws a new identity has no bound in the source: its fuel is the number of draws.
--
-- Not modelled: player_names and the profiles of src/game.cpp, which only read the state; pair_signs and
-- same_person of src/sentinel.cpp, which weigh pairs of accounts with floating point, the words of its
-- report, and its file; the handlers of src/commands.cpp, which are texts around the calls; the file of
-- src/pulse.cpp; the thread of src/raids.cpp and what it tells the chats; the connections (src/irc.cpp,
-- src/telegram.cpp, src/http_server.cpp, src/rest_routes.cpp, src/logging.cpp, src/main.cpp), which are I/O.
-- Log lines and the calls that tell the pulse of the game's events are left out of the calls of
-- src/game.cpp. An exception as the sender is remembered (dispatch), one of dump on text that is not UTF-8
-- (save_json), and the wrapping of an integer of the file above the largest int64 (integer) are left out too.
pub mod Base
pub mod Text
pub mod Table
pub mod Zodiac
pub mod State
pub mod Session
pub mod Power
pub mod Slots
pub mod Place
pub mod Gear
pub mod Hold
pub mod Balloon
pub mod Identity
pub mod Claim
pub mod Position
pub mod Rules
pub mod Event
pub mod Landing
pub mod Family
pub mod Burn
pub mod Furniture
pub mod Equip
pub mod Pulse
pub mod Raid
pub mod Quotes
pub mod Invites
pub mod Irc
pub mod Ranking
pub mod Link
pub mod SortOut
pub mod Command
pub mod IrcSession
pub mod SortedMap
pub mod Sentinel
pub mod Storage
pub mod Config
pub mod Keeper
pub mod Examples
