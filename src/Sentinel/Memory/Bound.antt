-- ===== src/Sentinel/Memory/Bound.antt =====
-- The sentinel from its start, through any calls in the order of their times.
use norelecbot.Base.{Bool, Bool-cases, Option-cases, [], arith, if◌then◌else◌, inl, inr, refl}
use norelecbot.Base.Int.{int_laws, ltb_ℤ, pos, ℤ, ◌+ℤ◌, ◌-ℤ◌, ◌≤ℤ◌}
use norelecbot.Sentinel.{
  Sentinel, block, came_back, claim, fresh_sentinel, fresh_speaker, heard, link_identity,
  remembered_seconds, ride, robbed, set_reported_day, tell_blocked, unblock,
}
use norelecbot.Sentinel.Memory.{IsRecent, RecentSpeaker, Remembers, weaken-IsRecent}
use norelecbot.Sentinel.Memory.Calls.{
  add_act-Remembers, came_back-Remembers, heard-Remembers, robbed-Remembers,
}
use norelecbot.SortedMap.{All-at_key, All-put, at_key, put}
use norelecbot.Table.{lookup}
use norelecbot.Text.{Text}

-- The sentinels that can come about, each with the time it was last told something at.
pub data Watches : ℤ → Sentinel → Type 0 where
  begins : Watches (pos 0) fresh_sentinel
  rides :
      {t : ℤ} {s : Sentinel} (key target : Text) (gift : Bool) (now : ℤ)
      → t ≤ℤ now
      → Watches t s
      → Watches now (ride key target gift now s)
  claims :
      {t : ℤ} {s : Sentinel} (key : Text) (now : ℤ)
      → t ≤ℤ now
      → Watches t s
      → Watches now (claim key now s)
  comes_back :
      {t : ℤ} {s : Sentinel} (key : Text) (now : ℤ)
      → t ≤ℤ now
      → Watches t s
      → Watches now (came_back key now s)
  is_robbed :
      {t : ℤ} {s : Sentinel} (victim robber : Text) (now : ℤ)
      → t ≤ℤ now
      → Watches t s
      → Watches now (robbed victim robber now s)
  hears_of :
      {t : ℤ} {s : Sentinel} (identity host : Text) (command : Bool) (now : ℤ)
      → t ≤ℤ now
      → Watches t s
      → Watches now (heard identity host command now s)
  links :
      {t : ℤ} {s : Sentinel} (identity key : Text)
      → Watches t s
      → Watches t (link_identity identity key s)
  blocks :
      {t : ℤ} {s : Sentinel} (key : Text) (until : ℤ) → Watches t s → Watches t (block key until s)
  unblocks : {t : ℤ} {s : Sentinel} (key : Text) → Watches t s → Watches t (unblock key s).1
  tells :
      {t : ℤ} {s : Sentinel} (key : Text) (now : ℤ)
      → Watches t s
      → Watches t (tell_blocked key now s).1
  reports : {t : ℤ} {s : Sentinel} (day : ℤ) → Watches t s → Watches t (set_reported_day day s)

tell_blocked-Remembers :
    (t : ℤ) (key : Text) (now : ℤ) (s : Sentinel)
    → Remembers t s
    → Remembers t (tell_blocked key now s).1
unfolding tell_blocked
tell_blocked-Remembers t key now s h =
    let again : Remembers t (record s { told = put key now s.told }) = record {
      recent = h.recent;
      not_ahead = h.not_ahead;
      lately = h.lately;
    } in
    elim (Option-cases (lookup key s.told)) [
      | inl untold ↦ rw (untold, tell_blocked) again
      | inr (at, told_at) ↦ elim (Bool-cases (ltb_ℤ (now -ℤ at) (pos 3600))) [
        | inl soon ↦ rw (told_at, soon, tell_blocked) h
        | inr late ↦ rw (told_at, late, tell_blocked) again
      ]
    ]

link_identity-Remembers :
    (t : ℤ) (identity key : Text) (s : Sentinel)
    → Remembers t s
    → Remembers t (link_identity identity key s)
unfolding link_identity fresh_speaker
link_identity-Remembers t identity key s h =
    let oldest = s.forgotten -ℤ remembered_seconds in
    let i = at_key identity fresh_speaker s.identities in
    let his : RecentSpeaker oldest i =
      All-at_key (λ e. RecentSpeaker oldest e.1) identity fresh_speaker s.identities (tt, tt)
        h.recent.1 in
    record {
      recent = (
        h.recent.0,
        All-put (λ e. RecentSpeaker oldest e.1) identity (record i { player = key }) s.identities
            his h.recent.1,
      );
      not_ahead = h.not_ahead;
      lately = h.lately;
    }

Watches-Remembers : {t : ℤ} {s : Sentinel} → Watches t s → Remembers t s
unfolding fresh_sentinel block unblock set_reported_day ride claim
Watches-Remembers begins = record {
  recent = (tt, tt);
  not_ahead = omega arith;
  lately = grind int_laws;
}
Watches-Remembers (rides {t} {s} key target gift now le w) =
    add_act-Remembers t now s (Watches-Remembers w) le key
      (record { at = now; kind = if gift then pos 1 else pos 0; target = target }) refl
Watches-Remembers (claims {t} {s} key now le w) =
    add_act-Remembers t now s (Watches-Remembers w) le key
      (record { at = now; kind = pos 2; target = [] }) refl
Watches-Remembers (comes_back {t} {s} key now le w) =
    came_back-Remembers t now s (Watches-Remembers w) le key
Watches-Remembers (is_robbed {t} {s} victim robber now le w) =
    robbed-Remembers t now s (Watches-Remembers w) le victim robber
Watches-Remembers (hears_of {t} {s} identity host command now le w) =
    heard-Remembers t now s (Watches-Remembers w) le identity host command
Watches-Remembers (links {t} {s} identity key w) =
    link_identity-Remembers t identity key s (Watches-Remembers w)
Watches-Remembers (blocks key until w) =
    let h = Watches-Remembers w in
    record { recent = h.recent; not_ahead = h.not_ahead; lately = h.lately }
Watches-Remembers (unblocks key w) =
    let h = Watches-Remembers w in
    record { recent = h.recent; not_ahead = h.not_ahead; lately = h.lately }
Watches-Remembers (tells {t} {s} key now w) =
    tell_blocked-Remembers t key now s (Watches-Remembers w)
Watches-Remembers (reports day w) =
    let h = Watches-Remembers w in
    record { recent = h.recent; not_ahead = h.not_ahead; lately = h.lately }

-- From its start, through calls in the order of their times, the sentinel keeps nothing that was seen
-- more than a week and an hour before the last call that told it something.
pub Watches-IsRecent :
    (t : ℤ) (s : Sentinel) → Watches t s → IsRecent (t -ℤ (remembered_seconds +ℤ pos 3600)) s
Watches-IsRecent t s w =
    let h = Watches-Remembers w in
    weaken-IsRecent (s.forgotten -ℤ remembered_seconds) (t -ℤ (remembered_seconds +ℤ pos 3600)) s
      (grind (int_laws, h.lately)) h.recent
