-- ===== src/Sentinel/Memory.antt =====
-- How far back the sentinel remembers.
pub mod Calls
pub mod Bound
use norelecbot.Base.{
  All, All-implies, Bool-cases, List, [], arith, erase_if-All, false, inl, inr, map, ◌∷◌, ◌≡◌,
}
use norelecbot.Base.Int.{eqb_ℤ, int_laws, ltb_ℤ, pos, ℤ, ◌-ℤ◌, ◌<ℤ◌, ◌≤ℤ◌}
use norelecbot.Sentinel.{
  Sentinel, Speaker, Watched, forget, forget_before, recent_of, recent_speaker, remembered_seconds,
  seen_at, start_watching,
}
use norelecbot.Table.{Table}
use norelecbot.Text.{Text}

-- Nothing of a player, or of whoever speaks, is from before an instant.
abbrev pub RecentWatched : ℤ → Watched → Type 0
RecentWatched oldest p =
    All (λ act. ltb_ℤ act.at oldest ≡ false) p.acts
    × All (λ at. ltb_ℤ at oldest ≡ false) p.backs
    × All (λ robbery. ltb_ℤ robbery.0 oldest ≡ false) p.robbed_by

abbrev pub RecentSpeaker : ℤ → Speaker → Type 0
RecentSpeaker oldest i =
    All (λ at. ltb_ℤ at oldest ≡ false) i.commands × All (λ at. ltb_ℤ at oldest ≡ false) i.chats

abbrev pub IsRecent : ℤ → Sentinel → Type 0
IsRecent oldest s =
    All (λ e. RecentWatched oldest e.1) s.players × All (λ e. RecentSpeaker oldest e.1) s.identities

weaken_times :
    {A : Type 0} (at : A → ℤ) (newer oldest : ℤ) (xs : List A)
    → oldest ≤ℤ newer
    → All (λ x. ltb_ℤ (at x) newer ≡ false) xs
    → All (λ x. ltb_ℤ (at x) oldest ≡ false) xs
weaken_times at newer oldest xs le =
    All-implies (λ x. ltb_ℤ (at x) newer ≡ false) (λ x. ltb_ℤ (at x) oldest ≡ false) xs
      (λ x p. ground arith)

pub weaken-IsRecent :
    (newer oldest : ℤ) (s : Sentinel) → oldest ≤ℤ newer → IsRecent newer s → IsRecent oldest s
weaken-IsRecent newer oldest s le (players, identities) = (
  All-implies (λ e. RecentWatched newer e.1) (λ e. RecentWatched oldest e.1) s.players
      (λ e p. (
        weaken_times (λ act. act.at) newer oldest e.1.acts le p.0,
        weaken_times (λ at. at) newer oldest e.1.backs le p.1,
        weaken_times (λ robbery. robbery.0) newer oldest e.1.robbed_by le p.2,
      ))
      players,
  All-implies (λ e. RecentSpeaker newer e.1) (λ e. RecentSpeaker oldest e.1) s.identities
      (λ e p. (
        weaken_times (λ at. at) newer oldest e.1.commands le p.0,
        weaken_times (λ at. at) newer oldest e.1.chats le p.1,
      ))
      identities,
)

-- What the sentinel keeps is from the week before it last forgot, and that was less than an hour ago.
pub record Remembers (now : ℤ) (s : Sentinel) : Type 0 where
  pub recent : IsRecent (s.forgotten -ℤ remembered_seconds) s
  pub not_ahead : s.forgotten ≤ℤ now
  pub lately : now -ℤ s.forgotten <ℤ pos 3600

recent-All :
    (oldest : ℤ) (m : Table Watched)
    → All {A = Text × Watched}
        (λ e. RecentWatched oldest e.1)
        (map (λ e. (e.0, recent_of oldest e.1)) m)
unfolding recent_of forget_before
recent-All oldest [] = tt
recent-All oldest ((k, p) ∷ m) = (
  (
    erase_if-All (λ act. ltb_ℤ act.at oldest) p.acts,
    erase_if-All (λ at. ltb_ℤ at oldest) p.backs,
    erase_if-All (λ robbery. ltb_ℤ robbery.0 oldest) p.robbed_by,
  ),
  recent-All oldest m,
)

recent_speakers :
    (oldest : ℤ) (m : Table Speaker)
    → All {A = Text × Speaker}
        (λ e. RecentSpeaker oldest e.1)
        (map (λ e. (e.0, recent_speaker oldest e.1)) m)
unfolding recent_speaker forget_before
recent_speakers oldest [] = tt
recent_speakers oldest ((k, i) ∷ m) = (
  (erase_if-All (λ at. ltb_ℤ at oldest) i.commands, erase_if-All (λ at. ltb_ℤ at oldest) i.chats),
  recent_speakers oldest m,
)

pub start_watching-Remembers :
    (before now : ℤ) (s : Sentinel) → Remembers before s → Remembers before (start_watching now s)
unfolding start_watching
start_watching-Remembers before now s h = elim (Bool-cases (eqb_ℤ s.started (pos 0))) [
  | inl first ↦
      rw (first, start_watching)
        (record { recent = h.recent; not_ahead = h.not_ahead; lately = h.lately })
  | inr not_first ↦ rw (not_first, start_watching) h
]

pub forget-Remembers :
    (before now : ℤ) (s : Sentinel)
    → Remembers before s
    → before ≤ℤ now
    → Remembers now (forget now s)
unfolding forget
forget-Remembers before now s h le = elim (Bool-cases (ltb_ℤ (now -ℤ s.forgotten) (pos 3600))) [
  | inl soon ↦
      rw (soon, forget)
        (record {
          recent = h.recent;
          not_ahead = omega (arith, h.not_ahead);
          lately = ground arith;
        })
  | inr late ↦
      rw (late, forget)
        (record {
          recent = (
            recent-All (now -ℤ remembered_seconds) s.players,
            recent_speakers (now -ℤ remembered_seconds) s.identities,
          );
          not_ahead = omega arith;
          lately = grind int_laws;
        })
]

pub seen_at-RecentWatched :
    (now oldest : ℤ) (p : Watched) → RecentWatched oldest p → RecentWatched oldest (seen_at now p)
unfolding seen_at
seen_at-RecentWatched now oldest p h = elim (Bool-cases (eqb_ℤ p.first_seen (pos 0))) [
  | inl first ↦ rw (first, seen_at) h
  | inr again ↦ rw (again, seen_at) h
]
