-- ===== src/Command/Readings.antt =====
-- What the readers of src/commands.cpp have to do with each other.
use norelecbot.Base.{
  Bool, [], any_of, ap, arith, false, find_index, if◌then◌else◌, length, none, refl, sym, true, ℕ,
  ◌++◌, ◌∙◌, ◌∷◌, ◌≡◌,
}
use norelecbot.Command.{
  amount_target, conquister_trigger, emoji_target, is_blank, past_trigger, raid_target,
  raid_trigger, slot_move, split_target, valid_raid_target,
}
use norelecbot.Text.{Text, starts_with, text_eq, utf8}

find_index_none : (p : ℕ → Bool) (s : Text) → any_of p s ≡ false → find_index p s ≡ length s
unfolding any_of find_index
find_index_none p [] h = refl
find_index_none p (c ∷ s) h = ground (arith, find_index_none p s)

valid_no_blank : (target : Text) → valid_raid_target target ≡ true → any_of is_blank target ≡ false
unfolding valid_raid_target
valid_no_blank target h = ground arith

split_target-none :
    (message : Text)
    → find_index is_blank (past_trigger message) ≡ length (past_trigger message)
    → split_target message ≡ none
unfolding split_target
split_target-none message e = rw (e, split_target) (ground arith)

past_trigger-raid_trigger : (name : Text) → past_trigger (raid_trigger ++ name) ≡ name
unfolding past_trigger raid_trigger utf8
past_trigger-raid_trigger name = refl

starts_with-raid_trigger : (name : Text) → starts_with (raid_trigger ++ name) raid_trigger ≡ true
unfolding raid_trigger utf8 starts_with
starts_with-raid_trigger [] = refl
starts_with-raid_trigger (c ∷ name) = refl

-- A line "We name", for a name that is valid and not the one of the place, is read as a raid on that
-- name, and by none of the readers of palle, of emoji and of slots.
pub raid_target_only :
    (name : Text)
    → valid_raid_target name ≡ true
    → text_eq (raid_trigger ++ name) conquister_trigger ≡ false
    → let message = raid_trigger ++ name in
      (raid_target message ≡ name)
      × (amount_target message ≡ none)
      × (emoji_target message ≡ none)
      × (slot_move message ≡ none)
raid_target_only name valid other =
    let message = raid_trigger ++ name in
    let past = past_trigger-raid_trigger name in
    let no_split : split_target message ≡ none = split_target-none message (
      ap (find_index is_blank) past
      ∙ find_index_none is_blank name (valid_no_blank name valid)
      ∙ ap length (sym past)) in
    (
      unfold raid_target in
          rw (starts_with-raid_trigger name, other)
            (ap (λ t. if valid_raid_target t then t else []) past ∙ rw valid refl),
      unfold amount_target in rw (no_split, amount_target) refl,
      unfold emoji_target in rw (no_split, emoji_target) refl,
      unfold slot_move in rw (no_split, slot_move) refl,
    )
