-- ===== src/Pulse/Tally.antt =====
-- The counts of the pulse against what they stand for: how often each thing was counted in a stretch.
use norelecbot.Base.{
  All, All-implies, Bool-cases, List, [], ap, arith, if◌then◌else◌, inl, inr, refl, true, ◌&&◌,
  ◌++◌, ◌∙◌, ◌∷◌, ◌≡◌,
}
use norelecbot.Base.Int.{eqb_ℤ, int_laws, leb_ℤ, ltb_ℤ, pos, ℤ, ◌+ℤ◌, ◌-ℤ◌}
use norelecbot.Pulse.{
  Pulse, bucket_at, bucket_of, bump, count, count_each, counts_at, drop_old, event, fresh_pulse,
  kept_seconds, message, message_counts,
}
use norelecbot.SortedMap.{at_key, lookup-put, put}
use norelecbot.Storage.Atomic.{differs}
use norelecbot.Table.{Table, lookup}
use norelecbot.Text.{Text, text_eq, text_eq_sound, utf8}

-- How often a thing is in a history of times and things within a stretch of five minutes.
unfoldable pub tally : ℤ → Text → List (ℤ × Text) → ℤ
tally bucket what [] = pos 0
tally bucket what ((t, one) ∷ history) =
    let before = tally bucket what history in
    if eqb_ℤ (bucket_of t) bucket && text_eq one what then before +ℤ pos 1 else before

unfoldable pub note_each : List Text → ℤ → List (ℤ × Text) → List (ℤ × Text)
note_each [] now history = history
note_each (what ∷ more) now history = note_each more now ((now, what) ∷ history)

-- A pulse after calls at times that do not go back: the history of what was counted, the latest first,
-- and the time of the last call.
pub data Beats : List (ℤ × Text) → ℤ → Pulse → Type 0 where
  starts : {t : ℤ} → Beats [] t fresh_pulse
  writes :
      {h : List (ℤ × Text)} {t : ℤ} {p : Pulse} (platform text : Text) (now : ℤ)
      → leb_ℤ t now ≡ true
      → Beats h t p
      → Beats (note_each (message_counts platform text) now h) now (message platform text now p)
  happens :
      {h : List (ℤ × Text)} {t : ℤ} {p : Pulse} (kind : Text) (now : ℤ)
      → leb_ℤ t now ≡ true
      → Beats h t p
      → Beats ((now, utf8 "event:" ++ kind) ∷ h) now (event kind now p)

unfoldable Ascends : List (ℤ × Table ℤ) → Type 0
Ascends [] = Unit
Ascends ((c, counts) ∷ later) = All (λ e. ltb_ℤ c e.0 ≡ true) later × Ascends later

abbrev amount : ℤ → Text → List (ℤ × Table ℤ) → ℤ
amount bucket what bs = at_key what (pos 0) (bucket_at bucket bs)

-- No bucket stands before the first.
bucket_at-before :
    (bucket : ℤ) (bs : List (ℤ × Table ℤ))
    → All (λ e. ltb_ℤ bucket e.0 ≡ true) bs
    → bucket_at bucket bs ≡ []
unfolding bucket_at
bucket_at-before bucket [] h = refl
bucket_at-before bucket ((c, counts) ∷ later) (before, h) =
    ground (arith, bucket_at-before bucket later h)

at_key-put :
    (what one : Text) (n : ℤ) (counts : Table ℤ)
    → at_key one (pos 0) (put what n counts)
      ≡ (if text_eq what one then n else at_key one (pos 0) counts)
unfolding at_key
at_key-put what one n counts = ground (arith, lookup-put what one n counts)

-- One more in a table of counts.
at_key-more :
    (what one : Text) (counts : Table ℤ)
    → at_key one (pos 0) (put what (at_key what (pos 0) counts +ℤ pos 1) counts)
      ≡ (if text_eq what one then at_key one (pos 0) counts +ℤ pos 1 else at_key one (pos 0) counts)
at_key-more what one counts = elim (Bool-cases (text_eq what one)) [
  | inl same ↦ rw same (
      at_key-put what one (at_key what (pos 0) counts +ℤ pos 1) counts
      ∙ rw same (ap (λ k. at_key k (pos 0) counts +ℤ pos 1) (text_eq_sound what one same)))
  | inr other ↦
      rw other (at_key-put what one (at_key what (pos 0) counts +ℤ pos 1) counts ∙ rw other refl)
]

at_key-first :
    (what one : Text)
    → at_key one (pos 0) ((what, pos 1) ∷ []) ≡ (if text_eq what one then pos 0 +ℤ pos 1 else pos 0)
unfolding at_key lookup ◌+ℤ◌
at_key-first what one = ground arith

-- One more of the thing in its bucket, and everything else as it was.
amount-bump :
    (bucket other : ℤ) (what one : Text) (bs : List (ℤ × Table ℤ))
    → Ascends bs
    → amount other one (bump bucket what bs) ≡ (
        if eqb_ℤ bucket other && text_eq what one
        then amount other one bs +ℤ pos 1
        else amount other one bs)
unfolding bump bucket_at Ascends
amount-bump bucket other what one [] h = ground (arith, at_key-first what one)
amount-bump bucket other what one ((c, counts) ∷ later) (before, h) =
    elim (Bool-cases (eqb_ℤ c bucket)) [
      | inl same ↦ ground (arith, at_key-more what one counts)
      | inr differs ↦ elim (Bool-cases (ltb_ℤ bucket c)) [
        | inl earlier ↦ elim (Bool-cases (eqb_ℤ bucket other)) [
          | inl here ↦
              let nothing : bucket_at other later ≡ [] = bucket_at-before other later (
                All-implies (λ e. ltb_ℤ c e.0 ≡ true) (λ e. ltb_ℤ other e.0 ≡ true) later
                  (λ e more. ground arith) before) in
              ground (arith, at_key-first what one)
          | inr elsewhere ↦ ground arith
        ]
        | inr behind ↦ ground (arith, amount-bump bucket other what one later h)
      ]
    ]

bump-All :
    (d bucket : ℤ) (what : Text) (bs : List (ℤ × Table ℤ))
    → ltb_ℤ d bucket ≡ true
    → All (λ e. ltb_ℤ d e.0 ≡ true) bs
    → All (λ e. ltb_ℤ d e.0 ≡ true) (bump bucket what bs)
unfolding bump
bump-All d bucket what [] new h = (new, tt)
bump-All d bucket what ((c, counts) ∷ later) new (first, h) = elim (Bool-cases (eqb_ℤ c bucket)) [
  | inl same ↦ rw same (first, h)
  | inr differs ↦ elim (Bool-cases (ltb_ℤ bucket c)) [
    | inl earlier ↦ rw (differs, earlier) (new, (first, h))
    | inr behind ↦ rw (differs, behind) (first, bump-All d bucket what later new h)
  ]
]

bump-Ascends :
    (bucket : ℤ) (what : Text) (bs : List (ℤ × Table ℤ))
    → Ascends bs
    → Ascends (bump bucket what bs)
unfolding bump Ascends
bump-Ascends bucket what [] h = (tt, tt)
bump-Ascends bucket what ((c, counts) ∷ later) (first, h) = elim (Bool-cases (eqb_ℤ c bucket)) [
  | inl same ↦ rw same (first, h)
  | inr differs ↦ elim (Bool-cases (ltb_ℤ bucket c)) [
    | inl earlier ↦
        rw (differs, earlier)
          (
            (
              earlier,
              All-implies (λ e. ltb_ℤ c e.0 ≡ true) (λ e. ltb_ℤ bucket e.0 ≡ true) later
                  (λ e more. ground arith) first,
            ),
            (first, h),
          )
    | inr behind ↦
        rw (differs, behind)
          (bump-All c bucket what later (ground arith) first, bump-Ascends bucket what later h)
  ]
]

drop_old-All :
    (d oldest : ℤ) (bs : List (ℤ × Table ℤ))
    → All (λ e. ltb_ℤ d e.0 ≡ true) bs
    → All (λ e. ltb_ℤ d e.0 ≡ true) (drop_old oldest bs)
unfolding drop_old
drop_old-All d oldest [] h = tt
drop_old-All d oldest ((c, counts) ∷ later) (first, h) = elim (Bool-cases (ltb_ℤ c oldest)) [
  | inl old ↦ rw old (drop_old-All d oldest later h)
  | inr recent ↦ rw recent (first, h)
]

drop_old-Ascends :
    (oldest : ℤ) (bs : List (ℤ × Table ℤ)) → Ascends bs → Ascends (drop_old oldest bs)
unfolding drop_old Ascends
drop_old-Ascends oldest [] h = tt
drop_old-Ascends oldest ((c, counts) ∷ later) (first, h) = elim (Bool-cases (ltb_ℤ c oldest)) [
  | inl old ↦ rw old (drop_old-Ascends oldest later h)
  | inr recent ↦ rw recent (first, h)
]

-- What is not too old is not forgotten.
bucket_at-drop_old :
    (bucket oldest : ℤ) (bs : List (ℤ × Table ℤ))
    → leb_ℤ oldest bucket ≡ true
    → bucket_at bucket (drop_old oldest bs) ≡ bucket_at bucket bs
unfolding bucket_at drop_old
bucket_at-drop_old bucket oldest [] h = refl
bucket_at-drop_old bucket oldest ((c, counts) ∷ later) h =
    ground (arith, bucket_at-drop_old bucket oldest later h)

-- The pulse is in order and counts what the history holds, in every bucket it still remembers.
record Tallies (h : List (ℤ × Text)) (t : ℤ) (p : Pulse) : Type 0 where
  ascends : Ascends p.buckets
  same :
      (bucket : ℤ) (what : Text)
      → leb_ℤ (t -ℤ kept_seconds) bucket ≡ true
      → amount bucket what p.buckets ≡ tally bucket what h

still_kept :
    (t now bucket : ℤ)
    → leb_ℤ t now ≡ true
    → leb_ℤ (now -ℤ kept_seconds) bucket ≡ true
    → leb_ℤ (t -ℤ kept_seconds) bucket ≡ true
still_kept t now bucket before kept = grind (int_laws)

count-Tallies :
    (what : Text) (now : ℤ) {h : List (ℤ × Text)} {t : ℤ} {p : Pulse}
    → leb_ℤ t now ≡ true
    → Tallies h t p
    → Tallies ((now, what) ∷ h) now (count what now p)
unfolding count tally
count-Tallies what now {h} {t} {p} later k = record {
  ascends =
      drop_old-Ascends (now -ℤ kept_seconds) (bump (bucket_of now) what p.buckets)
        (bump-Ascends (bucket_of now) what p.buckets k.ascends);
  same = λ bucket one recent.
      ap (at_key one (pos 0)) (
        bucket_at-drop_old bucket (now -ℤ kept_seconds) (bump (bucket_of now) what p.buckets)
          recent)
      ∙ amount-bump (bucket_of now) bucket what one p.buckets k.ascends
      ∙ ap (λ n. if eqb_ℤ (bucket_of now) bucket && text_eq what one then n +ℤ pos 1 else n)
          (k.same bucket one (still_kept t now bucket later recent));
}

count_each-Tallies :
    (words : List Text) (now : ℤ) {h : List (ℤ × Text)} {p : Pulse}
    → Tallies h now p
    → Tallies (note_each words now h) now (count_each words now p)
unfolding count_each note_each
count_each-Tallies [] now t = t
count_each-Tallies (what ∷ more) now t =
    count_each-Tallies more now (count-Tallies what now (ground arith) t)

later-Tallies :
    (now : ℤ) {h : List (ℤ × Text)} {t : ℤ} {p : Pulse}
    → leb_ℤ t now ≡ true
    → Tallies h t p
    → Tallies h now p
later-Tallies now {h} {t} before k = record {
  ascends = k.ascends;
  same = λ bucket one kept. k.same bucket one (still_kept t now bucket before kept);
}

Beats-Tallies : {h : List (ℤ × Text)} {t : ℤ} {p : Pulse} → Beats h t p → Tallies h t p
unfolding fresh_pulse message event Ascends tally bucket_at
Beats-Tallies starts = record { ascends = tt; same = λ bucket one kept. refl }
Beats-Tallies (writes platform text now before b) =
    count_each-Tallies (message_counts platform text) now
      (later-Tallies now before (Beats-Tallies b))
Beats-Tallies (happens kind now before b) =
    count-Tallies (utf8 "event:" ++ kind) now before (Beats-Tallies b)

-- After messages and events at times that do not go back, what the pulse tells of a stretch of five
-- minutes that began in the ninety days before the last of them is how often each thing was counted in it.
pub counts_at-tally :
    {h : List (ℤ × Text)} {t : ℤ} {p : Pulse} (now : ℤ) (what : Text)
    → Beats h t p
    → leb_ℤ (t -ℤ kept_seconds) (bucket_of now) ≡ true
    → at_key what (pos 0) (counts_at now p) ≡ tally (bucket_of now) what h
unfolding counts_at
counts_at-tally now what b kept = (Beats-Tallies b).same (bucket_of now) what kept
