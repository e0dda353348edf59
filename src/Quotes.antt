-- ===== src/Quotes.antt =====
-- The quotes: `quote_add`, `quote_page_load`, `quote_random` and `quote_delete` of src/game.cpp.
pub mod Adding
pub mod Pages
use norelecbot.Base.{
  Bool, List, Option, [], any_of, drop, find_index, get_elem?, if◌then◌else◌, leb, length, map, min,
  none, some, suc, take, zero, ℕ, ◌&&◌, ◌*◌, ◌++◌, ◌+◌, ◌-◌, ◌/◌, ◌==◌, ◌∷◌,
}
use norelecbot.Base.Int.{eqb_ℤ, int64_max, ltb_ℤ, pos, ℤ, ◌+ℤ◌, ◌-ℤ◌}
use norelecbot.Gear.{to_size}
use norelecbot.Place.{display_name}
use norelecbot.Session.{Game, ok, random_index, throws}
use norelecbot.State.{ConquisterState}
use norelecbot.Table.{counter, erase, insert, lookup}
use norelecbot.Table.Total.{total}
use norelecbot.Text.{Text, is_empty, text_eq}
use norelecbot.Text.Number.{parse_int64}

pub data QuoteAddStatus : Type 0 where
  added duplicate insufficient_score : QuoteAddStatus

pub record QuoteAddResult : Type 0 where
  pub status : QuoteAddStatus
  pub available_score : ℤ

pub record QuotePage : Type 0 where
  pub items : List Text
  pub authors : List Text
  pub total : ℕ
  pub page : ℕ
  pub pages : ℕ
  pub first_number : ℕ

abbrev pub quotes_page_size : ℕ
quotes_page_size = 30

-- The two documents that a quote is written to.
pub record Archive : Type 0 where
  pub quotes : List Text
  pub state : ConquisterState

unfoldable pub is_quoted : Text → List Text → Bool
unfolding any_of
is_quoted quote quotes = any_of (λ q. text_eq q quote) quotes

-- Nothing is the overflow of the counter, which throws.
unfoldable pub quote_add : Text → Text → ℤ → Archive → Option (QuoteAddResult × Archive)
quote_add username quote cost a =
    let score = counter a.state.scores username in
    let before = counter a.state.quotes_added username in
    if ltb_ℤ score cost
    then some (record { status = QuoteAddStatus.insufficient_score; available_score = score }, a)
    else if is_quoted quote a.quotes
    then some (record { status = QuoteAddStatus.duplicate; available_score = score }, a)
    else if eqb_ℤ before int64_max
    then none
    else some (
      record { status = QuoteAddStatus.added; available_score = score -ℤ cost },
      record {
        quotes = a.quotes ++ quote ∷ [];
        state = record (a.state) {
          quote_authors = insert quote username a.state.quote_authors;
          scores = insert username (score -ℤ cost) a.state.scores;
          quotes_added = insert username (before +ℤ pos 1) a.state.quotes_added;
        };
      },
    )

-- The page that is shown: the one asked for, the first for a number below one, the last at most.
unfoldable pub page_shown : ℤ → ℕ → ℕ
page_shown requested pages = min (if ltb_ℤ (pos 0) requested then to_size requested else 1) pages

unfoldable pub page_count : ℕ → ℕ
page_count total = (total - 1) / quotes_page_size + 1

author_of : ConquisterState → Text → Text
author_of state quote = elim (lookup quote state.quote_authors) [
  | none ↦ []
  | some key ↦ display_name state key
]

unfoldable pub quote_page_load : ℤ → Archive → QuotePage
unfolding page_shown page_count author_of
quote_page_load requested a =
    let total = length a.quotes in
    let pages = page_count total in
    let page = page_shown requested pages in
    let offset = (page - 1) * quotes_page_size in
    let items = take quotes_page_size (drop offset a.quotes) in
    if total == 0
    then record { items = []; authors = []; total = 0; page = 0; pages = 0; first_number = 0 }
    else record {
      items = items;
      authors = map (author_of a.state) items;
      total = total;
      page = page;
      pages = pages;
      first_number = offset + 1;
    }

unfoldable pub quote_random : Game (Option Text)
quote_random s = if is_empty s.quotes then ok none s else elim (random_index (length s.quotes) s) [
  | throws e ↦ throws e
  | ok i s' ↦ ok (get_elem? s'.quotes i) s'
]

-- `erase` of the element at an index.
unfoldable pub remove_at {ℓ} : {A : Type ℓ} → ℕ → List A → List A
remove_at i [] = []
remove_at zero (x ∷ xs) = xs
remove_at (suc i) (x ∷ xs) = x ∷ remove_at i xs

-- What the selector names: a position shown by the pages, or the text itself.
unfoldable pub selected_quote : Text → List Text → ℕ
unfolding find_index
selected_quote selector quotes =
    let named = find_index (λ q. text_eq q selector) quotes in
    elim (parse_int64 selector) [
      | none ↦ named
      | some position ↦
          if ltb_ℤ (pos 0) position && leb (to_size position) (length quotes)
          then to_size position - 1
          else named
    ]

-- A quote that is deleted no longer counts for whoever added it.
unfoldable pub forget_author : Text → ConquisterState → ConquisterState
forget_author removed state = elim (lookup removed state.quote_authors) [
  | none ↦ state
  | some author ↦
      let before = counter state.quotes_added author in
      let uncounted =
        if ltb_ℤ (pos 0) before
        then record state { quotes_added = insert author (before -ℤ pos 1) state.quotes_added }
        else state in
      record uncounted { quote_authors = erase removed uncounted.quote_authors }
]

unfoldable pub quote_delete : Text → Archive → Option Text × Archive
unfolding selected_quote forget_author
quote_delete selector a =
    let i = selected_quote selector a.quotes in
    elim (get_elem? a.quotes i) [
      | none ↦ (none, a)
      | some removed ↦ (
        some removed,
        record { quotes = remove_at i a.quotes; state = forget_author removed a.state },
      )
    ]
