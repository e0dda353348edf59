-- ===== src/Sentinel/Judge/Sure.antt =====
-- Whom the sentinel is sure of.
use norelecbot.Base.{
  Bool, List, Option, [], any_of, arith, erase_if, false, leb, length, ltb, map, none, not, refl,
  some, ℕ, ◌&&◌, ◌||◌, ◌∙◌, ◌∷◌, ◌≡◌,
}
use norelecbot.Base.Int.{eqb_ℤ, ltb_ℤ, pos, ℤ, ◌-ℤ◌}
use norelecbot.Sentinel.{Sentinel, Watched}
use norelecbot.Sentinel.Judge.{
  Judged, Judgement, add_judged, judge, judge_all, judge_found, judge_player, rank_judged,
  recent_acts, scripts, signs_of,
}
use norelecbot.Sentinel.Signs.{Finding, total_points}
use norelecbot.Table.{Table}
use norelecbot.Text.{Text, text_eq}
use norelecbot.Zodiac.{Zone}

-- Twenty acts in the week, and sixty points.
unfoldable pub is_script : Zone → Sentinel → ℤ → Text × Watched → Bool
unfolding recent_acts signs_of total_points
is_script zone s now (key, p) =
    leb 20 (length (recent_acts now p)) && leb 60 (total_points (signs_of zone s now key p))

unfoldable pub watched_a_day : Sentinel → ℤ → Bool
watched_a_day s now = not (eqb_ℤ s.started (pos 0)) && not (ltb_ℤ (now -ℤ s.started) (pos 86400))

abbrev names_sure : Text → Judged → Bool
names_sure key one = text_eq key one.player && leb 60 one.points

any_of-rank_judged :
    (q : Judged → Bool) (one : Judged) (ranked : List Judged)
    → any_of q (rank_judged one ranked) ≡ (q one || any_of q ranked)
unfolding rank_judged any_of
any_of-rank_judged q one [] = refl
any_of-rank_judged q one (other ∷ ranked) = ground (arith, any_of-rank_judged q one ranked)

abbrev names_sure_maybe : Text → Option Judged → Bool
names_sure_maybe key none = false
names_sure_maybe key (some one) = names_sure key one

add_judged-names_sure :
    (key : Text) (o : Option Judged) (rest : Judgement)
    → any_of (names_sure key) (add_judged o rest).judged
      ≡ (names_sure_maybe key o || any_of (names_sure key) rest.judged)
unfolding add_judged
add_judged-names_sure key none rest = refl
add_judged-names_sure key (some one) rest =
    ground (arith, any_of-rank_judged (names_sure key) one rest.judged)

judge_found-names_sure :
    (key k : Text) (acts : ℕ) (found : List Finding)
    → names_sure_maybe key (judge_found acts k found)
      ≡ (text_eq key k && (leb 20 acts && leb 60 (total_points found)))
unfolding judge_found
judge_found-names_sure key k acts found = ground arith

judge_player-names_sure :
    (zone : Zone) (s : Sentinel) (now : ℤ) (key k : Text) (p : Watched)
    → names_sure_maybe key (judge_player zone s now k p)
      ≡ (text_eq key k && is_script zone s now (k, p))
unfolding judge_player is_script
judge_player-names_sure zone s now key k p =
    judge_found-names_sure key k (length (recent_acts now p)) (signs_of zone s now k p)

judged-names_sure :
    (zone : Zone) (s : Sentinel) (now : ℤ) (key : Text) (m : Table Watched)
    → any_of (names_sure key) (judge_all zone s now m).judged
      ≡ any_of (λ e. text_eq key e.0 && is_script zone s now e) m
unfolding judge_all any_of
judged-names_sure zone s now key [] = refl
judged-names_sure zone s now key ((k, p) ∷ m) =
    add_judged-names_sure key (judge_player zone s now k p) (judge_all zone s now m)
    ∙ rw (judge_player-names_sure zone s now key k p, judged-names_sure zone s now key m) refl

sure_names :
    (key : Text) (judged : List Judged)
    → any_of (text_eq key) (map (λ one. one.player) (erase_if (λ one. ltb one.points 60) judged))
      ≡ any_of (names_sure key) judged
unfolding erase_if any_of
sure_names key [] = refl
sure_names key (one ∷ judged) = ground (arith, sure_names key judged)

-- The sentinel names an account as a script just when it has watched for a whole day and the account,
-- one of those it watches, has twenty acts in the last week and signs worth sixty points.
pub scripts_exact :
    (zone : Zone) (s : Sentinel) (now : ℤ) (key : Text)
    → any_of (text_eq key) (scripts zone s now)
      ≡ (watched_a_day s now && any_of (λ e. text_eq key e.0 && is_script zone s now e) s.players)
unfolding scripts judge watched_a_day any_of
scripts_exact zone s now key =
    ground
      (arith, sure_names key (judge zone s now).judged, judged-names_sure zone s now key s.players)
