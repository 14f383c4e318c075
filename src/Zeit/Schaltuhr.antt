-- ===== src/Zeit/Schaltuhr.antt =====
-- zeitschaltuhr.c: a time switch, which switches a group on in its time zones.
use hcan.Prelude.{
  ℕ, ◌+◌, ◌-◌, ◌%◌, Bool, true, false, List, [], ◌∷◌, ◌||◌, not, if◌then◌else◌, ◌==◌,
}
use hcan.Board.{Frame, byte, Board, hes_frame, send, low, multicast_control}

-- eds_zeitschaltuhr_block_t, with the eight zones in a list
pub record Config : Type 0 where
  pub power_gruppe : ℕ
  pub automatik_ein_schalter_gruppe : ℕ
  pub zeitzonen_ids : List ℕ

-- device_data_zeitschaltuhr, with the board that it acts on
pub record Schaltuhr : Type 0 where
  pub config : Config
  pub state : Bool
  pub update_counter : ℕ  -- uint16_t
  pub automatik_ein : Bool
  pub board : Board

abbrev pub update_interval : ℕ
update_interval = 173

abbrev pub power_group_on : ℕ
power_group_on = 10

abbrev pub power_group_off : ℕ
power_group_off = 11

unfoldable pub init : Schaltuhr → Schaltuhr
init p = record p {
  state = false;
  update_counter = 1 + p.config.power_gruppe % 16;
  automatik_ein = true;
}

unfoldable pub send_message : ℕ → Schaltuhr → Schaltuhr
send_message zustand p = record p {
  board =
      send (hes_frame p.board multicast_control 3 (zustand ∷ p.config.power_gruppe ∷ [])) low
        p.board;
}

abbrev pub command : Bool → ℕ
command true = power_group_on
command false = power_group_off

abbrev pub count_down : Schaltuhr → Schaltuhr
count_down p = record p { update_counter = p.update_counter - 1 }

-- the regular message, at the end of the timer handler
unfoldable pub update : Schaltuhr → Schaltuhr
unfolding send_message
update p =
    if p.update_counter == 0
    then count_down (send_message (command p.state) (record p { update_counter = update_interval }))
    else count_down p

module _ (zeitzone_matches : ℕ → Bool) where
  -- the loops over the zones
  unfoldable pub any_matches : List ℕ → Bool
  any_matches [] = false
  any_matches (id ∷ ids) = let rest = any_matches ids in zeitzone_matches id || rest

  -- zeitschaltuhr_timer_handler, called every second
  unfoldable pub timer_handler : Schaltuhr → Schaltuhr
  unfolding send_message update any_matches
  timer_handler p =
      let found = any_matches p.config.zeitzonen_ids in
      if not p.automatik_ein
      then send_message power_group_off p
      else if not p.state
      then if found then send_message power_group_on (record p { state = true }) else update p
      else if not found
      then send_message power_group_off (record p { state = false })
      else update p

unfoldable pub can_callback : Schaltuhr → Frame → Schaltuhr
can_callback p f =
    if byte f 2 == p.config.automatik_ein_schalter_gruppe
    then if byte f 1 == power_group_on
      then record p { automatik_ein = true }
      else if byte f 1 == power_group_off
      then record p { automatik_ein = false }
      else p
    else p
