-- ===== src/Rolladen/Relays.antt =====
-- The two relays of a roller shutter (rolladen.c) over every timer call and every frame.
use hcan.Prelude.{◌≡◌, ◌≢◌, Bool, true, false, arith}
use hcan.Board.{Frame, getpin}
use hcan.Rolladen.State.{
  State, auf_wait, auf, ab_wait_1, ab_wait_2, ab, stop_wait_2, dir_change_wait_2, Rolladen,
  laufzeit_align, set_soll_laufzeit, define_position, send_changed_info,
}
use hcan.Rolladen.Lowlevel.{tick_wait, advance, travel, watch_taster, timer_handler}
use hcan.Rolladen.Callback.{can_callback}

-- the relay outputs that belong to a state of the machine
abbrev pub power_of : State → Bool
power_of auf_wait = true
power_of auf = true
power_of ab_wait_2 = true
power_of ab = true
power_of _ = false

abbrev pub dir_of : State → Bool
dir_of ab_wait_1 = true
dir_of ab_wait_2 = true
dir_of ab = true
dir_of stop_wait_2 = true
dir_of dir_change_wait_2 = true
dir_of _ = false

abbrev pub power_on : Rolladen → Bool
power_on p = getpin p.config.port_power p.board

abbrev pub dir_on : Rolladen → Bool
dir_on p = getpin p.config.port_dir p.board

-- The pins are those of the state.
pub record Relays (p : Rolladen) : Type 0 where
  pub ports_differ : p.config.port_power ≢ p.config.port_dir
  pub power_follows : power_on p ≡ power_of p.state
  pub dir_follows : dir_on p ≡ dir_of p.state

pub tick_wait-Relays : (p : Rolladen) → Relays p → Relays (tick_wait p)
unfolding tick_wait
tick_wait-Relays p r = ground arith

pub advance-Relays : (p : Rolladen) → Relays p → Relays (advance p.state p)
unfolding advance laufzeit_align send_changed_info
advance-Relays p r = ground arith

-- What `travel` and `watch_taster` leave alone.
abbrev pub Same : Rolladen → Rolladen → Type 0
Same p q = (q.config ≡ p.config) × (q.state ≡ p.state) × (q.board ≡ p.board)

pub travel-Same : (p : Rolladen) → Same p (travel p).0
unfolding travel
travel-Same p = ground arith

pub watch_taster-Same : (p : Rolladen) → Same p (watch_taster p)
unfolding watch_taster
watch_taster-Same p = ground arith

-- The handler after the counter and the `switch` changes no relay and no state.
pub timer_handler-Same :
    (p : Rolladen) → let q = tick_wait p in Same (advance q.state q) (timer_handler p)
unfolding timer_handler
timer_handler-Same p =
    let q = tick_wait p in
    let a = advance q.state q in ground (arith, travel-Same a, watch_taster-Same (travel a).0)

Relays-Same : (p q : Rolladen) → Same p q → Relays p → Relays q
Relays-Same p q s r = ground arith

-- The relay pins stay those of the state over every call of the timer handler.
pub timer_handler-Relays : (p : Rolladen) → Relays p → Relays (timer_handler p)
timer_handler-Relays p r =
    let q = tick_wait p in
    Relays-Same (advance q.state q) (timer_handler p) (timer_handler-Same p)
      (advance-Relays q (tick_wait-Relays p r))

-- No frame moves a relay or changes the state of the machine.
pub can_callback_pins :
    (p : Rolladen) (f : Frame)
    → ((can_callback p f).config ≡ p.config)
      × ((can_callback p f).state ≡ p.state)
      × ((can_callback p f).board.pins ≡ p.board.pins)
unfolding can_callback set_soll_laufzeit define_position
can_callback_pins p f = ground arith
