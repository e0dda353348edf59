-- ===== src/Irc.antt =====
-- src/irc_protocol.cpp: the messages of the protocol, read and written.
pub mod Cutting
pub mod Fuel
pub mod Lines
pub mod RoundTrip
use norelecbot.Base.{
  Bool, List, Option, [], drop, false, get_or, if◌then◌else◌, leb, length, ltb, map, max, min, none,
  reverse, some, suc, take, zero, ℕ, ◌&&◌, ◌*◌, ◌++◌, ◌+◌, ◌==◌, ◌||◌, ◌∷◌,
}
use norelecbot.Text.{Text, between, is_empty, lower_name, text_eq, to_upper}

pub record Message : Type 0 where
  pub prefix : Text
  pub command : Text
  pub params : List Text

abbrev pub space : ℕ
space = 32

-- `take_until_space`: the token and the rest, which begins with the space.
unfoldable pub take_until_space : Text → Text × Text
take_until_space [] = ([], [])
take_until_space (c ∷ s) =
    let (token, rest) = take_until_space s in if c == space then ([], c ∷ s) else (c ∷ token, rest)

unfoldable pub skip_spaces : Text → Text
skip_spaces [] = []
skip_spaces (c ∷ s) = let rest = skip_spaces s in if c == space then rest else c ∷ s

-- The carriage returns and line feeds at the end.
unfoldable pub strip_line_end : Text → Text
strip_line_end [] = []
strip_line_end (c ∷ s) =
    let rest = strip_line_end s in if is_empty rest && (c == 13 || c == 10) then [] else c ∷ rest

abbrev pub starts_colon : Text → Bool
starts_colon [] = false
starts_colon (c ∷ s) = c == b':'

-- The parameters: a walk with fuel, since each round takes a whole token. Every round takes a byte at
-- least, so the length of the text is fuel enough.
unfoldable pub parse_params : ℕ → Text → List Text
parse_params zero line = []
parse_params (suc fuel) line =
    let s = skip_spaces line in
    let (token, rest) = take_until_space s in
    let more = parse_params fuel rest in
    if is_empty s then [] else if starts_colon s then drop 1 s ∷ [] else token ∷ more

parse_command : Text → Text → Option Message
unfolding to_upper
parse_command prefix line =
    let (command, rest) = take_until_space line in
    if is_empty command
    then none
    else some (record {
      prefix = prefix;
      command = map to_upper command;
      params = parse_params (suc (length rest)) rest;
    })

unfoldable pub parse : Text → Option Message
unfolding parse_command
parse raw =
    let line = skip_spaces (strip_line_end raw) in
    if starts_colon line
    then (let (prefix, rest) = take_until_space (drop 1 line) in
        if is_empty prefix then none else parse_command prefix (skip_spaces rest))
    else parse_command [] line

-- `command_line`: the command, each parameter behind a space, and the text behind a colon.
unfoldable pub write_params : List Text → Text
write_params [] = []
write_params (p ∷ params) = space ∷ p ++ write_params params

unfoldable pub write_text : Option Text → Text
write_text none = []
write_text (some t) = space ∷ b':' ∷ t

unfoldable pub command_line : Text → List Text → Option Text → Text
unfolding write_params write_text
command_line command params text = command ++ write_params params ++ write_text text ++ 13 ∷ 10 ∷ []

unfoldable pub nick_of : Text → Text
nick_of [] = []
nick_of (c ∷ s) = let rest = nick_of s in if c == b'!' || c == b'@' then [] else c ∷ rest

unfoldable pub same_name : Text → Text → Bool
same_name a b = text_eq (lower_name a) (lower_name b)

unfoldable pub is_channel : Text → Bool
is_channel [] = false
is_channel (c ∷ s) = c == b'&' || c == b'#'

unfoldable pub is_continuation : ℕ → Bool
is_continuation c = between 0x80 c 0xBF

-- Backwards from the cut while the byte behind it continues a sequence.
back_off : Text → ℕ → ℕ
unfolding is_continuation
back_off s zero = 0
back_off s (suc cut) =
    let less = back_off s cut in
    if ltb (suc cut) (length s) && is_continuation (get_or s (suc cut) 0) then less else suc cut

-- `boundary_before`: the largest cut that leaves every sequence whole.
unfoldable pub boundary_before : Text → ℕ → ℕ
unfolding back_off
boundary_before s max_bytes = back_off s (min max_bytes (length s))

-- `rfind(' ', cut)`: the last space at or before the cut.
unfoldable pub last_space : Text → ℕ → Option ℕ
last_space s zero = if get_or s 0 0 == space then some 0 else none
last_space s (suc cut) =
    let before = last_space s cut in
    if get_or s (suc cut) 0 == space then some (suc cut) else before

-- How much of a piece goes on the next line, and how much is dropped behind it.
unfoldable pub next_cut : Text → ℕ → ℕ × ℕ
unfolding boundary_before
next_cut piece max_bytes =
    let cut = boundary_before piece max_bytes in
    if ltb cut (length piece)
    then elim (last_space piece cut) [
      | none ↦ (cut, 0)
      | some at ↦ if leb cut (at * 2) then (at, 1) else (cut, 0)
    ]
    else (cut, 0)

-- A piece that is too long, line by line. Each round takes a byte at least: the length is fuel enough.
unfoldable pub cut_piece : ℕ → ℕ → Text → List Text
unfolding next_cut
cut_piece zero max_bytes piece = []
cut_piece (suc fuel) max_bytes piece =
    let (cut, skip) = next_cut piece max_bytes in
    let more = cut_piece fuel max_bytes (drop (cut + skip) piece) in
    if is_empty piece || cut == 0 then [] else take cut piece ∷ more

-- " · "
abbrev pub line_separator : Text
line_separator = 32 ∷ 0xC2 ∷ 0xB7 ∷ 32 ∷ []

strip_returns : Text → Text
strip_returns [] = []
strip_returns (c ∷ s) =
    let rest = strip_returns s in if is_empty rest && c == 13 then [] else c ∷ rest

-- A line joined to the last one when both fit, and cut up when not. The lines come last one first.
unfoldable pub add_piece : ℕ → Text → List Text → List Text
unfolding cut_piece
add_piece max_bytes piece [] = reverse (cut_piece (suc (length piece)) max_bytes piece)
add_piece max_bytes piece (last ∷ lines) =
    if leb (length last + length line_separator + length piece) max_bytes
    then (last ++ line_separator ++ piece) ∷ lines
    else reverse (cut_piece (suc (length piece)) max_bytes piece) ++ last ∷ lines

-- The pieces between the line feeds, without the empty ones.
split_lines : Text → Text → List Text
split_lines piece [] = piece ∷ []
split_lines piece (c ∷ s) =
    let rest = split_lines (if c == 10 then [] else piece ++ c ∷ []) s in
    if c == 10 then piece ∷ rest else rest

add_pieces : ℕ → List Text → List Text → List Text
unfolding strip_returns add_piece
add_pieces max_bytes [] lines = lines
add_pieces max_bytes (p ∷ pieces) lines =
    let piece = strip_returns p in
    add_pieces max_bytes pieces (if is_empty piece then lines else add_piece max_bytes piece lines)

unfoldable pub split_text : Text → ℕ → List Text
unfolding add_pieces split_lines
split_text text max_bytes = reverse (add_pieces (max max_bytes 1) (split_lines [] text) [])
