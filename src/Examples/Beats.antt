-- ===== src/Examples/Beats.antt =====
-- The theorem on the pulse, at a laugh over a raid.
use norelecbot.Base.{[], refl, ◌∷◌, ◌≡◌}
use norelecbot.Base.Int.{pos, ◌*ℤ◌, ◌-ℤ◌, ◌/ℤ◌}
use norelecbot.Pulse.{Pulse, bucket_of, counts_at, event, fresh_pulse, message, message_counts}
use norelecbot.Pulse.Tally.{Beats, counts_at-tally, note_each, tally}
use norelecbot.SortedMap.{at_key}
use norelecbot.Text.{utf8}

abbrev laughed : Pulse
laughed = message (utf8 "irc") (utf8 "Ahah, che raid") (pos 1000) fresh_pulse

abbrev robbed_then : Pulse
robbed_then = event (utf8 "robbed") (pos 1100) laughed

counts_at-tally_example :
    at_key (utf8 "topic:raid") (pos 0) (counts_at (pos 1100) robbed_then)
    ≡ tally (bucket_of (pos 1100)) (utf8 "topic:raid") (
        (pos 1100, utf8 "event:robbed")
        ∷ note_each (message_counts (utf8 "irc") (utf8 "Ahah, che raid")) (pos 1000) [])
unfolding ◌-ℤ◌ bucket_of ◌*ℤ◌ ◌/ℤ◌ utf8
counts_at-tally_example =
    counts_at-tally (pos 1100) (utf8 "topic:raid")
      (Beats.happens (utf8 "robbed") (pos 1100) refl (
        Beats.writes (utf8 "irc") (utf8 "Ahah, che raid") (pos 1000) refl
          (Beats.starts {t = pos 0})))
      refl

-- What that message is counted as.
counts_of_laugh :
    message_counts (utf8 "irc") (utf8 "Ahah, che raid")
    ≡ utf8 "messages:irc" ∷ utf8 "laughs:irc" ∷ utf8 "topic:raid" ∷ []
unfolding message_counts
counts_of_laugh = refl
