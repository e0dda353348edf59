-- ===== src/Invites.antt =====
-- Newcomers: `player_seen`, `guide_due`, `invite_record` and `invite_due` of src/game.cpp.
pub mod Once
use norelecbot.Base.{
  Bool, Option, [], erase_if, false, if◌then◌else◌, none, not, some, true, value_or, ℕ, ◌&&◌, ◌||◌,
}
use norelecbot.Base.Int.{eqb_ℤ, leb_ℤ, ltb_ℤ, negsuc, pos, ℤ, ◌+ℤ◌, ◌-ℤ◌}
use norelecbot.Gear.{welcome}
use norelecbot.Identity.{
  RaidTargetKind, legacy_owner, platform_key, player_by_name, remember_platform,
}
use norelecbot.Place.{display_name}
use norelecbot.State.{ConquisterState}
use norelecbot.Table.{Authors, contains, counter, insert, lookup}
use norelecbot.Text.{Text, lower_name, text_eq}
use norelecbot.Zodiac.{Zone}

abbrev pub invite_window_seconds : ℤ
invite_window_seconds = pos 259200

abbrev pub invite_days_needed : ℤ
invite_days_needed = pos 3

abbrev pub inviter_reward : ℤ
inviter_reward = pos 1000

abbrev pub invited_reward : ℤ
invited_reward = pos 500

-- The account is bound to a player: the one it was, a historical one, or a new one.
bind_account : ℤ → Text → Text → ConquisterState → Text × ConquisterState
bind_account user_id username account_name state =
    let account = platform_key user_id username account_name in
    elim (lookup account state.accounts) [
      | some key ↦ (key, state)
      | none ↦
          let key = value_or (legacy_owner state user_id username account_name) account in
          (key, record state { accounts = insert account key state.accounts })
    ]

-- The name by which he goes on that platform, and no other of his.
rename_in : Text → Text → Authors → Authors
rename_in username key names =
    insert (lower_name username) key (erase_if (λ e. text_eq e.1 key) names)

unfoldable pub name_player : ℤ → Text → Text → ConquisterState → ConquisterState
unfolding rename_in erase_if
name_player user_id username key state =
    let named =
      if eqb_ℤ user_id (pos 0)
      then record state { irc_nicks = rename_in username key state.irc_nicks }
      else record state { telegram_names = rename_in username key state.telegram_names } in
    let shown =
      if not (eqb_ℤ user_id (pos 0)) || eqb_ℤ (counter named.telegram_ids key) (pos 0)
      then record named { display_names = insert key username named.display_names }
      else named in
    remember_platform shown key user_id

-- Somebody nobody ever welcomed is new.
unfoldable pub note_newcomer : Text → ℤ → ConquisterState → ConquisterState
note_newcomer key now state =
    if ltb_ℤ (pos 0) now
      && (eqb_ℤ (counter state.welcomed key) (pos 0) && not (contains key state.joined))
    then record state { joined = insert key now state.joined }
    else state

-- The days that a newcomer plays, until his invite is settled.
unfoldable pub count_day : Zone → Text → ℤ → ConquisterState → ConquisterState
count_day zone key now state =
    let today = zone.local_day now in
    if ltb_ℤ (pos 0) now
      && (contains key state.joined
          && (not (contains key state.invite_paid)
              && not (eqb_ℤ (counter state.invite_last_day key) today)))
    then record state {
      invite_last_day = insert key today state.invite_last_day;
      invite_days = insert key (counter state.invite_days key +ℤ pos 1) state.invite_days;
    }
    else state

unfoldable pub player_seen :
    Zone → ℤ → Text → Text → ℕ → ℤ → ConquisterState → Text × ConquisterState
unfolding bind_account
player_seen zone user_id username account_name limit now state =
    let (key, bound) = bind_account user_id username account_name state in
    (
      key,
      count_day zone key now
          (welcome (note_newcomer key now (name_player user_id username key bound)) key limit),
    )

unfoldable pub guide_due : Text → ConquisterState → Bool × ConquisterState
guide_due player state =
    if not (contains player state.joined) || not (eqb_ℤ (counter state.guided player) (pos 0))
    then (false, state)
    else (true, record state { guided = insert player (pos 1) state.guided })

pub data InviteStatus : Type 0 where
  recorded unknown_inviter self too_late already not_new : InviteStatus

-- The status, the inviter's name as it is shown, and the state.
unfoldable pub invite_record :
    Text → Text → RaidTargetKind → ℤ → ConquisterState → (InviteStatus × Text) × ConquisterState
invite_record newcomer inviter platform now state = elim (lookup newcomer state.joined) [
  | none ↦ ((InviteStatus.not_new, []), state)
  | some came ↦
      if leb_ℤ invite_window_seconds (now -ℤ came)
      then ((InviteStatus.too_late, []), state)
      else elim (lookup newcomer state.invited_by) [
        | some by ↦ ((InviteStatus.already, display_name state by), state)
        | none ↦ elim (player_by_name state inviter platform) [
          | none ↦ ((InviteStatus.unknown_inviter, []), state)
          | some known ↦ if text_eq known newcomer then ((InviteStatus.self, []), state) else (
            (InviteStatus.recorded, display_name state known),
            record state { invited_by = insert newcomer known state.invited_by },
          )
        ]
      ]
]

pub record InviteReward : Type 0 where
  pub inviter : Text
  pub newcomer : Text
  pub inviter_palle : ℤ
  pub newcomer_palle : ℤ

pay_invite : Text → Text → ConquisterState → InviteReward × ConquisterState
pay_invite newcomer by state =
    let once = record state { invite_paid = insert newcomer (pos 1) state.invite_paid } in
    let first = insert by (counter once.scores by +ℤ inviter_reward) once.scores in
    (
      record {
        inviter = display_name state by;
        newcomer = display_name state newcomer;
        inviter_palle = inviter_reward;
        newcomer_palle = invited_reward;
      },
      record once { scores = insert newcomer (counter first newcomer +ℤ invited_reward) first },
    )

-- `same` is the sentinel's answer to whether the two are one person.
unfoldable pub invite_due :
    Text → (Text → Text → Bool) → ConquisterState → Option InviteReward × ConquisterState
unfolding pay_invite
invite_due newcomer same state = elim (lookup newcomer state.invited_by) [
  | none ↦ (none, state)
  | some by ↦
      if contains newcomer state.invite_paid
        || ltb_ℤ (counter state.invite_days newcomer) invite_days_needed
      then (none, state)
      else if same newcomer by
      then (none, record state { invite_paid = insert newcomer (negsuc 0) state.invite_paid })
      else let (reward, state') = pay_invite newcomer by state in (some reward, state')
]
