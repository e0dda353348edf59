-- ===== src/Storage/Document.antt =====
-- What the readers of src/storage.cpp are made of: the records, field by field, and `std::stoul`.
use norelecbot.Base.{
  Bool, List, Option, [], if◌then◌else◌, ltb, none, some, ℕ, ◌%◌, ◌-◌, ◌==◌, ◌^◌, ◌∷◌,
}
use norelecbot.Base.Int.{ℤ}
use norelecbot.Raid.Arrive.{arrive}
use norelecbot.State.{Child, ConquisterState, Holder, Knock, Pregnancy, Raid}
use norelecbot.Table.{Authors, Counters}
use norelecbot.Text.{Text, is_empty, trim_front}
use norelecbot.Text.Number.{is_digit, read_digits}

-- The fields of a record, in the order of its declaration.
unfoldable pub make_holder : ℤ → Text → ℤ → ℤ → ℤ → ℤ → ℤ → List (ℕ × Text) → Holder
make_holder user who since lightning bolts banked from lobsters = record {
  user_id = user;
  username = who;
  since = since;
  lightning_percent = lightning;
  bolts = bolts;
  banked = banked;
  counted_from = from;
  lobsters = lobsters;
}

unfoldable pub make_raid : Text → Text → ℤ → ℤ → Bool → ℤ → ℤ → Text → Bool → Raid
make_raid raider target arrive back arrived loot gift emoji intact = record {
  raider = raider;
  target = target;
  arrive = arrive;
  back = back;
  arrived = arrived;
  loot = loot;
  gift = gift;
  gift_emoji = emoji;
  intact = intact;
}

unfoldable pub make_pregnancy : Text → Text → ℤ → Pregnancy
make_pregnancy mother father due = record { mother = mother; father = father; due = due }

unfoldable pub make_child : Text → ℤ → Bool → ℤ → Bool → Child
make_child owner slot male born courted = record {
  owner = owner;
  slot = slot;
  male = male;
  born = born;
  courted = courted;
}

unfoldable pub make_knock : Text → Text → ℤ → Knock
make_knock raider target at = record { raider = raider; target = target; at = at }

unfoldable pub make_state :
    Option Holder
    → Counters
    → Counters
    → Counters
    → Counters
    → Counters
    → Counters
    → Counters
    → Authors
    → Authors
    → Authors
    → Authors
    → Authors
    → List Raid
    → Authors
    → Authors
    → Counters
    → Counters
    → Counters
    → Counters
    → List Pregnancy
    → List Child
    → ℤ
    → List Knock
    → Authors
    → Bool
    → Counters
    → Counters
    → Counters
    → Counters
    → Authors
    → Counters
    → Counters
    → Counters
    → ConquisterState
make_state x_current x_scores x_quotes_added x_balloons x_cooldowns x_ids x_telegram_ids x_irc_names
      x_accounts x_display_names x_telegram_names x_irc_nicks x_link_requests x_raids
      x_quote_authors x_furniture x_debugging x_smeared x_welcomed x_frozen x_pregnancies x_children
      x_eggs_at x_knocks x_equipped x_split x_pugliesi x_joined x_guided x_entered x_invited_by
      x_invite_days x_invite_last_day x_invite_paid =
    record {
      current = x_current;
      scores = x_scores;
      quotes_added = x_quotes_added;
      balloons = x_balloons;
      cooldowns = x_cooldowns;
      ids = x_ids;
      telegram_ids = x_telegram_ids;
      irc_names = x_irc_names;
      accounts = x_accounts;
      display_names = x_display_names;
      telegram_names = x_telegram_names;
      irc_nicks = x_irc_nicks;
      link_requests = x_link_requests;
      raids = x_raids;
      quote_authors = x_quote_authors;
      furniture = x_furniture;
      debugging = x_debugging;
      smeared = x_smeared;
      welcomed = x_welcomed;
      frozen = x_frozen;
      pregnancies = x_pregnancies;
      children = x_children;
      eggs_at = x_eggs_at;
      knocks = x_knocks;
      equipped = x_equipped;
      split = x_split;
      pugliesi = x_pugliesi;
      joined = x_joined;
      guided = x_guided;
      entered = x_entered;
      invited_by = x_invited_by;
      invite_days = x_invite_days;
      invite_last_day = x_invite_last_day;
      invite_paid = x_invite_paid;
    }

-- `std::stoul`: blanks, a sign, and the digits that follow, which must be there and fit 64 bits. A
-- minus sign wraps around.
unfoldable pub digit_run : Text → Text
unfolding is_digit
digit_run [] = []
digit_run (c ∷ s) = let rest = digit_run s in if is_digit c then c ∷ rest else []

unfoldable pub stoul_digits : Text → Option ℕ
unfolding digit_run read_digits
stoul_digits s = if is_empty (digit_run s) then none else elim (read_digits 0 (digit_run s)) [
  | none ↦ none
  | some n ↦ if ltb n (2 ^ 64) then some n else none
]

unfoldable pub stoul_signed : Text → Option ℕ
unfolding stoul_digits
stoul_signed [] = none
stoul_signed (c ∷ s) =
    if c == b'-'
    then elim (stoul_digits s) [ none ↦ none | some n ↦ some ((2 ^ 64 - n) % 2 ^ 64) ]
    else if c == b'+'
    then stoul_digits s
    else stoul_digits (c ∷ s)

unfoldable pub stoul : Text → Option ℕ
unfolding stoul_signed trim_front
stoul s = stoul_signed (trim_front s)

-- `holder->lobsters[slot] = emoji`, in the order of the slots.
unfoldable pub put_lobster : ℕ → Text → List (ℕ × Text) → List (ℕ × Text)
put_lobster slot emoji [] = (slot, emoji) ∷ []
put_lobster slot emoji ((other, e) ∷ lobsters) =
    let later = put_lobster slot emoji lobsters in
    if slot == other
    then (slot, emoji) ∷ lobsters
    else if ltb slot other
    then (slot, emoji) ∷ (other, e) ∷ lobsters
    else (other, e) ∷ later
