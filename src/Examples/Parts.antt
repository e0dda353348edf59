-- ===== src/Examples/Parts.antt =====
-- The theorems on the smaller parts, at small inputs.
use norelecbot.Balloon.{balloon_roll, held, popped}
use norelecbot.Balloon.Attempts.{IsWorn, roll_pops}
use norelecbot.Base.{
  All, Bool, [], arith, false, find_index, get_elem?, get_or, if◌then◌else◌, map, max, none, refl,
  some, true, ℕ, ◌%◌, ◌++◌, ◌+◌, ◌/◌, ◌<◌, ◌==◌, ◌∷◌, ◌≡◌, ◌≢◌, ◌⊎◌,
}
use norelecbot.Base.Int.{negsuc, pos, ◌+ℤ◌, ◌-ℤ◌, ◌<ℤ◌, ◌≤ℤ◌}
use norelecbot.Burn.{BurnStatus, palle_burn}
use norelecbot.Burn.Palle.{palle_burn_cases}
use norelecbot.Examples.{anna, bruno, game}
use norelecbot.Hold.{settle_hold}
use norelecbot.Hold.Pay.{Settles, settle_hold_pays}
use norelecbot.Invites.{invite_due}
use norelecbot.Invites.Once.{invite_due_pays}
use norelecbot.Irc.{command_line, parse, split_text, strip_line_end}
use norelecbot.Irc.Lines.{IsLine, split_text-IsLine}
use norelecbot.Irc.RoundTrip.{parse-command_line}
use norelecbot.Place.{on_the_road}
use norelecbot.Quotes.{
  Archive, QuoteAddResult, QuoteAddStatus, is_quoted, quote_add, quote_page_load, quotes_page_size,
}
use norelecbot.Quotes.Adding.{quote_add_cases}
use norelecbot.Quotes.Pages.{quote_page_load_tiles}
use norelecbot.Rules.{utc_sky}
use norelecbot.Slots.{first_empty, free_slot, put_in, write_slot}
use norelecbot.Slots.Put.{put_in_slot}
use norelecbot.State.{ConquisterState, Holder}
use norelecbot.Table.{counter, erase, insert, lookup}
use norelecbot.Text.{Text, text_eq, to_upper}
use norelecbot.Text.Emoji.{emoji_split}
use norelecbot.Text.Emoji.Pieces.{IsSplit, emoji_split-IsSplit}
use norelecbot.Text.Number.{parse_int64, to_string}
use norelecbot.Text.Number.Printed.{parse_int64-to_string}

abbrev hold : Holder
hold = record {
  user_id = pos 0;
  username = bruno;
  since = pos 0;
  lightning_percent = pos 0;
  bolts = pos 0;
  banked = pos 5;
  counted_from = pos 0;
  lobsters = [];
}

abbrev rich : ConquisterState
unfolding game
rich = record game { balloons = (bruno, pos 2) ∷ [] }

roll_pops_example :
    let (r, state') = balloon_roll rich bruno 1 in
    ((r ≡ popped)
      × (pos 1 ≤ℤ counter rich.balloons bruno)
      × (state'.balloons ≡ erase bruno rich.balloons))
    ⊎ ((r ≡ held)
        × (counter rich.balloons bruno <ℤ pos 1)
        × IsWorn state' bruno
        × (counter state'.balloons bruno ≡ counter rich.balloons bruno +ℤ pos 1))
unfolding rich counter lookup text_eq
roll_pops_example = roll_pops rich bruno 1 (omega arith, omega arith) (omega arith)

abbrev gem : Text
gem = 0xF0 ∷ 0x9F ∷ 0x92 ∷ 0x8E ∷ []

put_in_slot_example :
    (i : ℕ) × (i < 3)
    × (get_or (gem ∷ [] ∷ []) i [] ≡ [])
    × ((j : ℕ)
        → get_or (gem ∷ anna ∷ []) j [] ≡ (if i == j then anna else get_or (gem ∷ [] ∷ []) j []))
unfolding put_in free_slot first_empty find_index write_slot
put_in_slot_example = put_in_slot (gem ∷ [] ∷ []) (gem ∷ anna ∷ []) anna 3 refl

abbrev invited : ConquisterState
unfolding game
invited = record game { invited_by = (anna, bruno) ∷ []; invite_days = (anna, pos 3) ∷ [] }

nobody : Text → Text → Bool
nobody a b = false

invite_due_pays_example :
    let (reward, state') = invite_due anna nobody invited in
    (reward ≢ none)
    × (counter state'.scores bruno ≡ counter invited.scores bruno +ℤ pos 1000)
    × (counter state'.scores anna ≡ counter invited.scores anna +ℤ pos 500)
    × (invite_due anna nobody state' ≡ (none, state'))
unfolding invited game nobody counter lookup text_eq
invite_due_pays_example =
    invite_due_pays anna bruno nobody nobody invited refl (λ e. absurd (ground arith)) refl refl
      (omega arith)

palle_burn_cases_example :
    let (r, state') = palle_burn anna (pos 20) game in
    ((r.status ≡ BurnStatus.burned)
      × (pos 0 <ℤ pos 20)
      × (on_the_road game anna ≡ false)
      × (counter state'.scores anna +ℤ pos 20 ≡ counter game.scores anna)
      × (pos 0 ≤ℤ counter state'.scores anna)
      × (r.score ≡ counter state'.scores anna))
    ⊎ ((r.status ≢ BurnStatus.burned) × (state' ≡ game) × (r.score ≡ counter game.scores anna))
palle_burn_cases_example = palle_burn_cases anna (pos 20) game

abbrev shelf : Archive
shelf = record { quotes = anna ∷ bruno ∷ []; state = game }

abbrev bought : QuoteAddResult × Archive
unfolding game
bought = (
  record { status = QuoteAddStatus.added; available_score = pos 20 },
  record {
    quotes = anna ∷ bruno ∷ gem ∷ [];
    state = record game {
      quote_authors = (gem, anna) ∷ [];
      scores = (anna, pos 20) ∷ (bruno, pos 7) ∷ [];
      quotes_added = (anna, pos 1) ∷ [];
    };
  },
)

quote_page_load_tiles_example :
    let p = quote_page_load (pos (1 / quotes_page_size + 1)) shelf in
    (p.page ≡ 1 / quotes_page_size + 1)
    × (get_elem? p.items (1 % quotes_page_size) ≡ some bruno)
    × (p.first_number + 1 % quotes_page_size ≡ 1 + 1)
quote_page_load_tiles_example = quote_page_load_tiles shelf 1 (omega arith)

parse-command_line_example :
    parse (command_line anna (bruno ∷ []) (some (104 ∷ 32 ∷ 105 ∷ [])))
    ≡ some (record {
      prefix = [];
      command = map to_upper anna;
      params = bruno ∷ (104 ∷ 32 ∷ 105 ∷ []) ∷ [];
    })
unfolding strip_line_end
parse-command_line_example =
    parse-command_line anna (bruno ∷ []) (104 ∷ 32 ∷ 105 ∷ [])
      (refl, refl, (λ e. absurd (ground arith), (λ e. absurd (ground arith), tt)))
      ((refl, refl, (λ e. absurd (ground arith), (λ e. absurd (ground arith), tt))), tt) refl

split_text-IsLine_example :
    All (IsLine (max 4 1)) (split_text (97 ∷ 32 ∷ 98 ∷ 99 ∷ 100 ∷ 101 ∷ []) 4)
split_text-IsLine_example = split_text-IsLine (97 ∷ 32 ∷ 98 ∷ 99 ∷ 100 ∷ 101 ∷ []) 4

emoji_split-IsSplit_example : IsSplit (32 ∷ gem ++ gem) (emoji_split (32 ∷ gem ++ gem))
emoji_split-IsSplit_example = emoji_split-IsSplit (32 ∷ gem ++ gem)

parse_int64-to_string_example : parse_int64 (to_string (negsuc 41)) ≡ some (negsuc 41)
parse_int64-to_string_example = parse_int64-to_string (negsuc 41) (omega arith) (omega arith)

settle_hold_pays_example : Settles game hold (pos 100) (settle_hold game hold (pos 100) utc_sky)
settle_hold_pays_example = settle_hold_pays game hold (pos 100) utc_sky

quote_add_cases_example :
    let (r, a') = bought in
    ((r.status ≡ QuoteAddStatus.added)
      × (is_quoted gem shelf.quotes ≡ false)
      × (pos 30 ≤ℤ counter shelf.state.scores anna)
      × (a'.quotes ≡ shelf.quotes ++ gem ∷ [])
      × (counter a'.state.scores anna +ℤ pos 30 ≡ counter shelf.state.scores anna)
      × (counter a'.state.quotes_added anna ≡ counter shelf.state.quotes_added anna +ℤ pos 1)
      × (lookup gem a'.state.quote_authors ≡ some anna))
    ⊎ ((r.status ≢ QuoteAddStatus.added)
        × (a' ≡ shelf)
        × ((counter shelf.state.scores anna <ℤ pos 30) ⊎ (is_quoted gem shelf.quotes ≡ true)))
unfolding quote_add bought game counter lookup text_eq is_quoted insert ◌-ℤ◌ ◌+ℤ◌
quote_add_cases_example = quote_add_cases anna gem (pos 30) shelf bought.1 bought.0 refl
