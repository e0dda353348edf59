-- ===== src/Quotes/Pages.antt =====
-- About the pages of `quote_page_load`.
use norelecbot.Base.{
  List, [], ap, arith, drop, false, get_elem?, length, refl, suc, take, zero, ℕ, ◌%◌, ◌*◌, ◌+◌, ◌-◌,
  ◌/◌, ◌<◌, ◌==◌, ◌∙◌, ◌∷◌, ◌≡◌,
}
use norelecbot.Base.Int.{pos}
use norelecbot.Quotes.{Archive, page_count, page_shown, quote_page_load, quotes_page_size}
use norelecbot.Text.{Text}

get_elem?-drop : (n i : ℕ) (xs : List Text) → get_elem? (drop n xs) i ≡ get_elem? xs (n + i)
get_elem?-drop zero i xs = let same : 0 + i ≡ i = omega arith in rw same refl
get_elem?-drop (suc n) i [] = refl
get_elem?-drop (suc n) i (x ∷ xs) =
    let more : suc n + i ≡ suc (n + i) = omega arith in rw more (get_elem?-drop n i xs)

get_elem?-take : (n i : ℕ) (xs : List Text) → i < n → get_elem? (take n xs) i ≡ get_elem? xs i
get_elem?-take zero i xs h = elim h [ ]
get_elem?-take (suc n) i [] h = refl
get_elem?-take (suc n) zero (x ∷ xs) h = refl
get_elem?-take (suc n) (suc i) (x ∷ xs) h = get_elem?-take n i xs (omega arith)

page_of :
    (i n : ℕ)
    → i < n
    → page_shown (pos (i / quotes_page_size + 1)) (page_count n) ≡ i / quotes_page_size + 1
unfolding page_shown page_count
page_of i n h = ground arith

-- The quote at an index stands on the page of its thirty, in its place there, and under its number.
pub quote_page_load_tiles :
    (a : Archive) (i : ℕ)
    → i < length a.quotes
    → let p = quote_page_load (pos (i / quotes_page_size + 1)) a in
      (p.page ≡ i / quotes_page_size + 1)
      × (get_elem? p.items (i % quotes_page_size) ≡ get_elem? a.quotes i)
      × (p.first_number + i % quotes_page_size ≡ i + 1)
unfolding quote_page_load
quote_page_load_tiles a i h =
    let some_there : (length a.quotes == 0) ≡ false = ground arith in
    let place : i / quotes_page_size * quotes_page_size + i % quotes_page_size ≡ i = omega arith in
    let whole : (i / quotes_page_size + 1 - 1) * quotes_page_size + i % quotes_page_size ≡ i =
      omega arith in
    let short : i % quotes_page_size < quotes_page_size = omega arith in
    rw (some_there, page_of i (length a.quotes) h)
      (
        refl,
        get_elem?-take quotes_page_size (i % quotes_page_size)
              (drop ((i / quotes_page_size + 1 - 1) * quotes_page_size) a.quotes) short
            ∙ get_elem?-drop ((i / quotes_page_size + 1 - 1) * quotes_page_size)
                (i % quotes_page_size) a.quotes
            ∙ ap (get_elem? a.quotes) whole,
        omega arith,
      )
