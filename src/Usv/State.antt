-- ===== src/Usv/State.antt =====
-- usvstatemachine.c: the variables of the module, the two switches, and the voltage statistics. The
-- readings of the converter (adc_reach_channel) are inputs: each call is a measurement of its own.
use hcan.Prelude.{ℕ, Bool, true, false, List, [], ◌∷◌, if◌then◌else◌, ltb, ◌==◌}
use hcan.Board.{Board, Frame, send, low, multicast_info, proto_sfp, setpin}

-- `leds` is led_state of led.c; pin 7 of the board is the relay, set on battery. The extrema are U_min and
-- U_max, an entry for each of the channels U1 .. U5.
pub record Usv : Type 0 where
  pub on_battery : Bool  -- uint8_t, 0 or 1
  pub usv_timer : ℕ  -- uint16_t
  pub switch_back_counter : ℕ  -- uint16_t
  pub led_timer : ℕ  -- uint8_t
  pub timer_counter : ℕ  -- uint8_t
  pub u_min : List ℕ
  pub u_max : List ℕ
  pub leds : ℕ → ℕ
  pub board : Board

abbrev pub relais : ℕ
relais = 7

abbrev pub srv_usvs : ℕ
srv_usvs = 8

abbrev pub state_info : ℕ
state_info = 2

abbrev pub one_if : Bool → ℕ
one_if true = 1
one_if false = 0

-- led_set, for a number up to 7
abbrev pub led_set : ℕ → ℕ → Usv → Usv
led_set n v u = record u { leds = λ k. if k == n then v else u.leds k }

abbrev pub usvs_frame : Board → ℕ → ℕ → List ℕ → Frame
usvs_frame b dst size rest = record {
  src = b.self;
  dst = dst;
  proto = proto_sfp;
  size = size;
  bytes = srv_usvs ∷ rest;
}

-- the frame at the end of both switches
abbrev pub inform : Usv → Usv
inform u = record u {
  board =
      send (usvs_frame u.board multicast_info 3 (state_info ∷ one_if u.on_battery ∷ [])) low
        u.board;
}

unfoldable pub switch_to_battery : Usv → Usv
switch_to_battery u = inform (
    led_set 6 10 (
      led_set 3 0
        (record u { on_battery = true; board = setpin relais true u.board; usv_timer = 200 })))

unfoldable pub switch_to_netzbetrieb : Usv → Usv
switch_to_netzbetrieb u = inform (
    led_set 6 0 (
      led_set 3 10
        (record u { on_battery = false; board = setpin relais false u.board; usv_timer = 10 })))

-- usv_reset_U_stats
unfoldable pub reset_stats : Usv → Usv
reset_stats u = record u {
  u_min = 1023 ∷ 1023 ∷ 1023 ∷ 1023 ∷ 1023 ∷ [];
  u_max = 0 ∷ 0 ∷ 0 ∷ 0 ∷ 0 ∷ [];
}

-- the loop of usv_state_handler over the channels, on the arrays and the readings
unfoldable pub raise : List ℕ → List ℕ → List ℕ
raise [] us = []
raise (m ∷ ms) [] = m ∷ ms
raise (m ∷ ms) (u ∷ us) = (if ltb m u then u else m) ∷ raise ms us

unfoldable pub lower : List ℕ → List ℕ → List ℕ
lower [] us = []
lower (m ∷ ms) [] = m ∷ ms
lower (m ∷ ms) (u ∷ us) = (if ltb u m then u else m) ∷ lower ms us

unfoldable pub update_stats : Usv → List ℕ → Usv
unfolding raise lower
update_stats u us = record u { u_min = lower u.u_min us; u_max = raise u.u_max us }
