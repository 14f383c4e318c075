-- ===== src/Usv/Machine.antt =====
-- usvstatemachine.c: usv_timer_handler (every 10 ms), usv_state_handler and usv_can_callback.
use hcan.Prelude.{ℕ, ◌+◌, ◌-◌, ◌%◌, List, [], ◌∷◌, ◌&&◌, if◌then◌else◌, ◌==◌, ltb, leb, get_or}
use hcan.Board.{Frame, byte, send, low, msb, lsb}
use hcan.Usv.State.{
  Usv, switch_to_battery, switch_to_netzbetrieb, reset_stats, update_stats, led_set, usvs_frame,
  state_info, one_if,
}

-- led_timer_handler of led.c blinks the LEDs from `leds`; it is not modelled
unfoldable pub timer_handler : Usv → Usv
timer_handler u =
    let second = u.timer_counter == 0 in
    record u {
      usv_timer = u.usv_timer - 1;
      led_timer = if u.led_timer == 0 then 9 else u.led_timer - 1;
      timer_counter = if second then 100 else u.timer_counter - 1;
      switch_back_counter = if second then u.switch_back_counter - 1 else u.switch_back_counter;
    }

-- _23_V, _24_V, U_BAT_WARNING, U_BAT_CRITICAL
abbrev pub v_23 : ℕ
v_23 = 784

abbrev pub v_24 : ℕ
v_24 = 819

abbrev pub u_bat_warning : ℕ
u_bat_warning = 836

abbrev pub u_bat_critical : ℕ
u_bat_critical = 829

-- The measurements of one call, in the order of the code: the five channels, those of the decision, and
-- those of the LEDs.
pub record Readings : Type 0 where
  pub channels : List ℕ
  pub puffer : ℕ
  pub bat : ℕ
  pub nt : ℕ
  pub led_puffer : ℕ
  pub led_nt : ℕ
  pub led_warning : ℕ
  pub led_critical : ℕ

-- the decision between battery and mains
unfoldable pub decide : Usv → Readings → Usv
unfolding switch_to_battery switch_to_netzbetrieb
decide u r =
    if leb r.puffer v_23
    then if ltb v_24 r.bat
      then if u.on_battery then u else record (switch_to_battery u) { switch_back_counter = 30 }
      else if u.on_battery
      then switch_to_netzbetrieb u
      else u
    else if ltb v_24 r.nt && u.switch_back_counter == 0
    then if u.on_battery then switch_to_netzbetrieb u else u
    else u

unfoldable pub show : Usv → Readings → Usv
show u r = led_set 5 (if ltb r.led_critical u_bat_critical then 5 else 0) (
    led_set 4 (if ltb r.led_warning u_bat_warning then 3 else 0) (
      led_set 2 (if ltb r.led_nt v_23 then 10 else 0)
        (led_set 0 (if leb v_23 r.led_puffer then 10 else 0) u)))

unfoldable pub state_handler : Usv → Readings → Usv
unfolding update_stats decide show
state_handler u r =
    let v = update_stats u r.channels in if v.usv_timer == 0 then show (decide v r) r else v

abbrev pub state_request : ℕ
state_request = 1

abbrev pub voltage_request : ℕ
voltage_request = 3

abbrev pub voltage_replay : ℕ
voltage_replay = 4

abbrev pub stats_request : ℕ
stats_request = 5

abbrev pub stats_replay : ℕ
stats_replay = 6

abbrev pub stats_reset : ℕ
stats_reset = 7

abbrev answer : Usv → Frame → ℕ → List ℕ → Usv
answer u f size rest = record u { board = send (usvs_frame u.board f.src size rest) low u.board }

-- `frame->data[2] - 1` in a uint8_t
abbrev pub channel : Frame → ℕ
channel f = (byte f 2 + 255) % 256

-- usv_can_callback; the reading of channel n is `measured n`
unfoldable pub can_callback : Usv → Frame → (ℕ → ℕ) → Usv
unfolding reset_stats
can_callback u f measured =
    let n = channel f in
    let least = get_or u.u_min n 0 in
    let most = get_or u.u_max n 0 in
    if byte f 1 == state_request
    then answer u f 3 (state_info ∷ one_if u.on_battery ∷ [])
    else if byte f 1 == voltage_request
    then if ltb n 5
      then answer u f 4 (voltage_replay ∷ msb (measured n) ∷ lsb (measured n) ∷ [])
      else u
    else if byte f 1 == stats_request
    then if ltb n 5
      then answer u f 7 (stats_replay ∷ byte f 2 ∷ msb least ∷ lsb least ∷ msb most ∷ lsb most ∷ [])
      else u
    else if byte f 1 == stats_reset
    then reset_stats u
    else u
