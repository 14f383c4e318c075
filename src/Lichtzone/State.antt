-- ===== src/Lichtzone/State.antt =====
-- lichtzone.c: the data of a light zone, its timer, and the frames to its action groups. A frame that is
-- sent is delivered to the devices of the board before the send returns (canix_deliver_frame in
-- canix/canix.c), to the sender too: `deliver_self` is that call. What other devices of the board
-- send in answer meanwhile is not modelled.
use hcan.Prelude.{ℕ, ◌*◌, ◌%◌, Bool, true, false, List, [], ◌∷◌, ◌&&◌, not, if◌then◌else◌, ◌==◌}
use hcan.Board.{Frame, byte, Board, hes_frame, send, hi, multicast_control, bit}

-- LICHTZONE_STATE_*
pub data State : Type 0 where
  off on on_ext : State

-- eds_lichtzone_block_t, with its arrays of groups
pub record Config : Type 0 where
  pub toggle_gruppen : List ℕ
  pub off_gruppen : List ℕ
  pub on_gruppen : List ℕ
  pub timer_delay : ℕ
  pub action_gruppen : List ℕ

-- device_data_lichtzone, with the board that it acts on
pub record Lichtzone : Type 0 where
  pub config : Config
  pub state : State
  pub timer_counter : ℕ  -- uint16_t
  pub exton_taster_down_counter : ℕ  -- uint8_t
  pub exton_sec_counter : ℕ  -- uint8_t
  pub board : Board

abbrev pub power_group_on : ℕ
power_group_on = 10

abbrev pub power_group_off : ℕ
power_group_off = 11

abbrev pub has_timer : Lichtzone → Bool
has_timer p = not (p.config.timer_delay == 0)

unfoldable pub setup_timer : Lichtzone → Lichtzone
setup_timer p = record p {
  timer_counter =
      if bit p.config.timer_delay 7 then p.config.timer_delay % 128 else p.config.timer_delay * 60;
}

abbrev pub switched_on : State → Lichtzone → Lichtzone
switched_on on_ext p = p
switched_on _ p = let q = record p { state = on } in if has_timer p then setup_timer q else q

-- HCAN_HES_POWER_GROUP_ON: the loop over the action groups
unfoldable pub group_on_loop : List ℕ → ℕ → Lichtzone → Lichtzone
unfolding setup_timer
group_on_loop [] n p = p
group_on_loop (g ∷ gs) n p =
    group_on_loop gs n (if not (g == 255) && g == n then switched_on p.state p else p)

unfoldable pub on_power_group_on : Lichtzone → Frame → Lichtzone
unfolding group_on_loop
on_power_group_on p f = group_on_loop p.config.action_gruppen (byte f 2) p

-- HCAN_HES_POWER_GROUP_OFF: the first action group that fits ends the loop
unfoldable pub group_off_loop : List ℕ → ℕ → Lichtzone → Lichtzone
group_off_loop [] n p = p
group_off_loop (g ∷ gs) n p =
    let rest = group_off_loop gs n p in
    if not (g == 255) && g == n then record p { state = off; timer_counter = 0 } else rest

unfoldable pub on_power_group_off : Lichtzone → Frame → Lichtzone
unfolding group_off_loop
on_power_group_off p f = group_off_loop p.config.action_gruppen (byte f 2) p

abbrev pub is_off : State → Bool
is_off off = true
is_off _ = false

-- the frame to one action group, which the zone hears too
unfoldable pub inform_one : Lichtzone → ℕ → Lichtzone
unfolding on_power_group_on on_power_group_off
inform_one p g =
    let kind : ℕ = if is_off p.state then power_group_off else power_group_on in
    let f = hes_frame p.board multicast_control 3 (kind ∷ g ∷ []) in
    let q = record p { board = send f hi p.board } in
    if is_off p.state then on_power_group_off q f else on_power_group_on q f

unfoldable pub inform_loop : List ℕ → Lichtzone → Lichtzone
inform_loop [] p = p
inform_loop (g ∷ gs) p = inform_loop gs (if g == 255 then p else inform_one p g)

unfoldable pub inform_action_groups : Lichtzone → Lichtzone
unfolding inform_loop
inform_action_groups p = inform_loop p.config.action_gruppen p
