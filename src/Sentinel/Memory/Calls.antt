-- ===== src/Sentinel/Memory/Calls.antt =====
-- Every call that the sentinel is told something by keeps to what it remembers.
use norelecbot.Base.{All-append, Bool, [], false, true, ◌∷◌, ◌≡◌}
use norelecbot.Base.Int.{int_laws, ltb_ℤ, ℤ, ◌-ℤ◌, ◌≤ℤ◌}
use norelecbot.Sentinel.{
  Act, Sentinel, Speaker, Watched, add_act, add_back, add_robbery, came_back, forget, fresh_speaker,
  fresh_watched, heard, remembered_seconds, robbed, seen_at, spoke, start_watching, with_player,
}
use norelecbot.Sentinel.Memory.{
  RecentSpeaker, RecentWatched, Remembers, forget-Remembers, seen_at-RecentWatched,
  start_watching-Remembers,
}
use norelecbot.SortedMap.{All-at_key, All-put, at_key}
use norelecbot.Text.{Text}

module _ (before now : ℤ) (s : Sentinel) (h : Remembers before s) (le : before ≤ℤ now) where
  -- The sentinel as a call finds it once it forgot.
  abbrev ready_for : Sentinel
  ready_for = forget now (start_watching now s)

  ready : Remembers now ready_for
  ready =
      forget-Remembers before now (start_watching now s) (start_watching-Remembers before now s h)
        le

  -- What is seen now is recent.
  now_recent : ltb_ℤ now (ready_for.forgotten -ℤ remembered_seconds) ≡ false
  now_recent = grind (int_laws, ready.not_ahead)

  with_player-Remembers :
      (key : Text) (change : Watched → Watched)
      → ((oldest : ℤ) (p : Watched)
          → ltb_ℤ now oldest ≡ false
          → RecentWatched oldest p
          → RecentWatched oldest (change p))
      → Remembers now (with_player key now change s)
  unfolding with_player
  with_player-Remembers key change keeps =
      let oldest = ready_for.forgotten -ℤ remembered_seconds in
      let p = at_key key fresh_watched ready_for.players in
      let his : RecentWatched oldest p =
        All-at_key (λ e. RecentWatched oldest e.1) key fresh_watched ready_for.players
          (unfold fresh_watched in (tt, tt, tt)) ready.recent.0 in
      record {
        recent = (
          All-put (λ e. RecentWatched oldest e.1) key (change (seen_at now p)) ready_for.players
              (keeps oldest (seen_at now p) now_recent (seen_at-RecentWatched now oldest p his))
              ready.recent.0,
          ready.recent.1,
        );
        not_ahead = ready.not_ahead;
        lately = ready.lately;
      }

  pub add_act-Remembers :
      (key : Text) (act : Act) → act.at ≡ now → Remembers now (with_player key now (add_act act) s)
  unfolding add_act
  add_act-Remembers key act same = with_player-Remembers key (add_act act) (λ oldest p fresh his. (
    All-append (λ x. ltb_ℤ x.at oldest ≡ false) p.acts (act ∷ []) his.0 (rw same fresh, tt),
    his.1,
    his.2,
  ))

  pub came_back-Remembers : (key : Text) → Remembers now (came_back key now s)
  unfolding came_back add_back
  came_back-Remembers key = with_player-Remembers key (add_back now) (λ oldest p fresh his. (
    his.0,
    All-append (λ at. ltb_ℤ at oldest ≡ false) p.backs (now ∷ []) his.1 (fresh, tt),
    his.2,
  ))

  pub robbed-Remembers : (victim robber : Text) → Remembers now (robbed victim robber now s)
  unfolding robbed add_robbery
  robbed-Remembers victim robber =
      with_player-Remembers victim (add_robbery now robber) (λ oldest p fresh his. (
        his.0,
        his.1,
        All-append (λ x. ltb_ℤ x.0 oldest ≡ false) p.robbed_by ((now, robber) ∷ []) his.2
            (fresh, tt),
      ))

  spoke-RecentSpeaker :
      (oldest : ℤ) (host : Text) (command : Bool) (i : Speaker)
      → ltb_ℤ now oldest ≡ false
      → RecentSpeaker oldest i
      → RecentSpeaker oldest (spoke host command now i)
  unfolding spoke
  spoke-RecentSpeaker oldest [] true i fresh (said, chatted) =
      (All-append (λ at. ltb_ℤ at oldest ≡ false) i.commands (now ∷ []) said (fresh, tt), chatted)
  spoke-RecentSpeaker oldest [] false i fresh (said, chatted) =
      (said, All-append (λ at. ltb_ℤ at oldest ≡ false) i.chats (now ∷ []) chatted (fresh, tt))
  spoke-RecentSpeaker oldest (x ∷ host) true i fresh (said, chatted) =
      (All-append (λ at. ltb_ℤ at oldest ≡ false) i.commands (now ∷ []) said (fresh, tt), chatted)
  spoke-RecentSpeaker oldest (x ∷ host) false i fresh (said, chatted) =
      (said, All-append (λ at. ltb_ℤ at oldest ≡ false) i.chats (now ∷ []) chatted (fresh, tt))

  pub heard-Remembers :
      (identity host : Text) (command : Bool) → Remembers now (heard identity host command now s)
  unfolding heard fresh_speaker
  heard-Remembers identity host command =
      let oldest = ready_for.forgotten -ℤ remembered_seconds in
      let i = at_key identity fresh_speaker ready_for.identities in
      let his : RecentSpeaker oldest i =
        All-at_key (λ e. RecentSpeaker oldest e.1) identity fresh_speaker ready_for.identities
          (tt, tt) ready.recent.1 in
      record {
        recent = (
          ready.recent.0,
          All-put (λ e. RecentSpeaker oldest e.1) identity (spoke host command now i)
              ready_for.identities (spoke-RecentSpeaker oldest host command i now_recent his)
              ready.recent.1,
        );
        not_ahead = ready.not_ahead;
        lately = ready.lately;
      }
