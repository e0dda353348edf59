-- ===== src/Quotes/Adding.antt =====
-- About `quote_add`.
use norelecbot.Base.{List, [], any_of, arith, false, some, true, ◌++◌, ◌∷◌, ◌≡◌, ◌≢◌, ◌⊎◌}
use norelecbot.Base.Int.{int_laws, pos, ℤ, ◌+ℤ◌, ◌<ℤ◌, ◌≤ℤ◌}
use norelecbot.Quotes.{Archive, QuoteAddResult, QuoteAddStatus, is_quoted, quote_add}
use norelecbot.Table.{counter, counter-insert_self, lookup, lookup-insert_self}
use norelecbot.Text.{Text, text_eq_refl}

is_quoted-append : (q : Text) (quotes : List Text) → is_quoted q (quotes ++ q ∷ []) ≡ true
unfolding is_quoted any_of
is_quoted-append q [] = ground (arith, text_eq_refl q)
is_quoted-append q (x ∷ quotes) = ground (arith, is_quoted-append q quotes)

-- A call that does not throw adds the quote behind the others, where it was not before, for its price,
-- and counts it for whoever added it; or nothing changes: he cannot pay, or it is quoted already.
pub quote_add_cases :
    (username quote : Text) (cost : ℤ) (a a' : Archive) (r : QuoteAddResult)
    → quote_add username quote cost a ≡ some (r, a')
    → ((r.status ≡ QuoteAddStatus.added)
        × (is_quoted quote a.quotes ≡ false)
        × (cost ≤ℤ counter a.state.scores username)
        × (a'.quotes ≡ a.quotes ++ quote ∷ [])
        × (counter a'.state.scores username +ℤ cost ≡ counter a.state.scores username)
        × (counter a'.state.quotes_added username ≡ counter a.state.quotes_added username +ℤ pos 1)
        × (lookup quote a'.state.quote_authors ≡ some username))
      ⊎ ((r.status ≢ QuoteAddStatus.added)
          × (a' ≡ a)
          × ((counter a.state.scores username <ℤ cost) ⊎ (is_quoted quote a.quotes ≡ true)))
unfolding quote_add
quote_add_cases username quote cost a a' r e =
    grind (int_laws, counter-insert_self, lookup-insert_self)
