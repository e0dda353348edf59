-- ===== src/Sentinel/Signs.antt =====
-- `script_signs` of src/sentinel.cpp: the signs that nobody is reading and typing. What a finding tells
-- is kept as the sign and the numbers in it, without the words around them.
use norelecbot.Base.{
  Bool, List, [], any_of, count_if, erase_if, get_or, if◌then◌else◌, leb, length, ltb, map, min,
  not, suc, ℕ, ◌&&◌, ◌*◌, ◌++◌, ◌+◌, ◌/◌, ◌==◌, ◌∷◌,
}
use norelecbot.Base.Int.{eqb_ℤ, leb_ℤ, ltb_ℤ, neg_part, pos, pos_part, ℤ, ◌*ℤ◌, ◌-ℤ◌}
use norelecbot.Sentinel.{Act, Watched}
use norelecbot.Sentinel.Timing.{longest_sitting, median, reactions, sort_times, starts_of}
use norelecbot.SortedMap.{at_key, put}
use norelecbot.Table.{Table}
use norelecbot.Text.{Text, text_eq}
use norelecbot.Zodiac.{Zone}

pub data Why : Type 0 where
  restarts_at_once : ℕ → ℕ → ℕ → Why
  waits_the_same : ℤ → ℕ → Why
  waits_too_evenly : ℤ → ℤ → Why
  never_pauses : ℤ → Why
  plays_at_all_hours : ℕ → Why
  writes_only_commands : ℕ → Why
  writes_few_words : ℕ → ℕ → Why
  hits_one_target : Text → ℕ → Why
  never_strikes_back : ℕ → Why
  writes_in_bursts : ℕ → Why

pub record Finding : Type 0 where
  pub points : ℕ
  pub why : Why

unfoldable pub percent : ℕ → ℕ → ℕ
percent part whole = if whole == 0 then 0 else part * 100 / whole

-- A finding when there are points.
unfoldable pub found_if : ℕ → Why → List Finding
found_if points why = if ltb 0 points then record { points = points; why = why } ∷ [] else []

unfoldable pub instant_sign : List ℤ → List Finding
unfolding percent count_if found_if
instant_sign delays =
    let instant = count_if (λ delay. ltb_ℤ delay (pos 3)) delays in
    let share = percent instant (length delays) in
    if ltb (length delays) 10
    then []
    else found_if
        (if leb 50 share then 30 else if leb 25 share then 20 else if leb 10 share then 8 else 0)
        (Why.restarts_at_once share instant (length delays))

-- `std::abs(delay - usual) * 10 <= usual`
unfoldable pub is_usual : ℤ → ℤ → Bool
is_usual usual delay =
    let gap = delay -ℤ usual in leb_ℤ (pos ((pos_part gap + neg_part gap) * 10)) usual

unfoldable pub steady_sign : List ℤ → List Finding
unfolding median percent count_if is_usual found_if
steady_sign waits =
    let usual = median waits in
    let share = percent (count_if (is_usual usual) waits) (length waits) in
    found_if (if leb 60 share then 25 else if leb 40 share then 15 else 0)
      (Why.waits_the_same usual share)

unfoldable pub even_sign : List ℤ → List Finding
unfolding sort_times found_if
even_sign delays =
    let sorted = sort_times delays in
    let usual = get_or sorted (length sorted / 2) (pos 0) in
    let most = get_or sorted (length sorted * 9 / 10) (pos 0) in
    if leb_ℤ (pos 3) usual && ltb_ℤ (most *ℤ pos 10) (usual *ℤ pos 16)
    then found_if 15 (Why.waits_too_evenly usual most)
    else []

unfoldable pub waiting_sign : List ℤ → List Finding
unfolding erase_if steady_sign even_sign
waiting_sign delays =
    let waits = erase_if (λ delay. ltb_ℤ delay (pos 60)) delays in
    if leb 15 (length waits)
    then steady_sign waits
    else if leb 20 (length delays)
    then even_sign delays
    else []

unfoldable pub sleep_sign : ℤ → List Finding
unfolding found_if
sleep_sign sitting =
    if leb_ℤ (pos 28800) sitting
    then found_if 20 (Why.never_pauses sitting)
    else if leb_ℤ (pos 18000) sitting
    then found_if 10 (Why.never_pauses sitting)
    else []

-- A `std::set` of hours: how many different ones there are.
unfoldable pub count_distinct : List ℤ → ℕ
unfolding any_of
count_distinct [] = 0
count_distinct (t ∷ times) =
    let rest = count_distinct times in if any_of (eqb_ℤ t) times then rest else suc rest

unfoldable pub hours_sign : Zone → List Act → List Finding
unfolding count_distinct found_if
hours_sign zone acts =
    let hours = count_distinct (map (λ act. zone.local_hour act.at) acts) in
    if leb 22 hours then found_if 10 (Why.plays_at_all_hours hours) else []

unfoldable pub words_sign : ℕ → ℕ → Bool → List Finding
unfolding found_if
words_sign commands chats chats_count =
    if not (chats_count && leb 50 commands)
    then []
    else if chats == 0
    then found_if 15 (Why.writes_only_commands commands)
    else if ltb (chats * 100) commands
    then found_if 8 (Why.writes_few_words commands chats)
    else []

unfoldable pub raids_in : List Act → List Act
unfolding erase_if
raids_in acts = erase_if (λ act. not (eqb_ℤ act.kind (pos 0))) acts

-- `++targets[act.target]`
unfoldable pub count_targets : List Act → Table ℕ → Table ℕ
unfolding put at_key
count_targets [] targets = targets
count_targets (act ∷ acts) targets =
    count_targets acts (put act.target (suc (at_key act.target 0 targets)) targets)

-- `max_element`: the first of those that count most.
unfoldable pub top_of : Table ℕ → Text × ℕ → Text × ℕ
top_of [] best = best
top_of (e ∷ m) best = top_of m (if ltb best.1 e.1 then e else best)

unfoldable pub target_sign : List Act → List Finding
unfolding raids_in count_targets top_of percent found_if
target_sign acts =
    let raids = raids_in acts in
    let top = top_of (count_targets raids []) ([], 0) in
    let share = percent top.1 (length raids) in
    if leb 30 (length raids) && leb 90 share
    then found_if 5 (Why.hits_one_target top.0 share)
    else []

unfoldable pub strikes_back : List Act → ℤ × Text → Bool
unfolding any_of
strikes_back acts robbery =
    any_of
      (λ act.
        eqb_ℤ act.kind (pos 0)
        && (text_eq act.target robbery.1
            && (leb_ℤ robbery.0 act.at && leb_ℤ (act.at -ℤ robbery.0) (pos 1800))))
      acts

unfoldable pub meek_sign : Watched → List Finding
unfolding strikes_back any_of found_if
meek_sign p =
    if leb 10 (length p.robbed_by) && not (any_of (strikes_back p.acts) p.robbed_by)
    then found_if 5 (Why.never_strikes_back (length p.robbed_by))
    else []

unfoldable pub count_bursts : List ℤ → ℕ
count_bursts [] = 0
count_bursts (t ∷ []) = 0
count_bursts (t ∷ u ∷ times) =
    let rest = count_bursts (u ∷ times) in if ltb_ℤ (u -ℤ t) (pos 3) then suc rest else rest

unfoldable pub bursts_sign : List ℤ → List Finding
unfolding count_bursts percent found_if
bursts_sign times =
    let bursts = count_bursts times in
    if leb 10 bursts && leb 20 (percent bursts (length times))
    then found_if 5 (Why.writes_in_bursts bursts)
    else []

unfoldable pub script_signs : Zone → Watched → ℕ → ℕ → Bool → List ℤ → List Finding
unfolding starts_of reactions instant_sign waiting_sign longest_sitting sleep_sign hours_sign
    words_sign target_sign meek_sign bursts_sign
script_signs zone p commands chats chats_count command_times =
    let delays = reactions p.backs (starts_of p) in
    instant_sign delays
    ++ waiting_sign delays
    ++ sleep_sign (longest_sitting p)
    ++ hours_sign zone p.acts
    ++ words_sign commands chats chats_count
    ++ target_sign p.acts
    ++ meek_sign p
    ++ bursts_sign command_times

unfoldable pub sum_points : List Finding → ℕ
sum_points [] = 0
sum_points (f ∷ found) = f.points + sum_points found

-- `total`
unfoldable pub total_points : List Finding → ℕ
unfolding sum_points
total_points found = min 100 (sum_points found)
