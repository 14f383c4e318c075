-- ===== src/Usv/Dwell.antt =====
-- How long the supply (usvstatemachine.c) stays on battery or on mains, over any sequence of timer calls,
-- state checks and frames.
use hcan.Prelude.{
  ℕ, ◌+◌, ◌≤◌, ◌≡◌, ◌≢◌, Bool, true, false, List, [], ◌∷◌, arith, if◌then◌else◌, ◌==◌, not, ◌&&◌,
  ◌||◌, leb, ltb,
}
use hcan.Board.{Frame, getpin}
use hcan.Usv.State.{Usv, relais}
use hcan.Usv.Machine.{Readings, timer_handler, state_handler, can_callback, v_23, v_24}

-- The supply with a clock: the calls of the timer handler (10 ms each) since it last switched.
pub record Monitor : Type 0 where
  pub usv : Usv
  pub since : ℕ

pub data Event : Type 0 where
  tick : Event
  check : Readings → Event
  frame : Frame → (ℕ → ℕ) → Event

abbrev eqb : Bool → Bool → Bool
eqb true b = b
eqb false true = false
eqb false false = true

unfoldable pub step : Monitor → Event → Monitor
step m tick = record { usv = timer_handler m.usv; since = m.since + 1 }
step m (check r) =
    let u = state_handler m.usv r in
    record { usv = u; since = if eqb u.on_battery m.usv.on_battery then m.since else 0 }
step m (frame f measured) = record m { usv = can_callback m.usv f measured }

unfoldable pub run : Monitor → List Event → Monitor
run m [] = m
run m (e ∷ es) = run (step m e) es

-- the shortest stay
abbrev pub dwell : Bool → ℕ
dwell true = 200
dwell false = 10

pub record Dwells (m : Monitor) : Type 0 where
  pub relay : getpin relais m.usv.board ≡ m.usv.on_battery
  pub clock : dwell m.usv.on_battery ≤ m.since + m.usv.usv_timer

step-Dwells : (m : Monitor) (e : Event) → Dwells m → Dwells (step m e)
unfolding step timer_handler state_handler can_callback
step-Dwells m tick d = ground arith
step-Dwells m (check r) d = ground arith
step-Dwells m (frame f measured) d = ground arith

run-Dwells : (m : Monitor) (es : List Event) → Dwells m → Dwells (run m es)
unfolding run
run-Dwells m [] d = d
run-Dwells m (e ∷ es) d = run-Dwells (step m e) es (step-Dwells m e d)

check_dwell :
    (m : Monitor) (r : Readings)
    → Dwells m
    → (state_handler m.usv r).on_battery ≢ m.usv.on_battery
    → dwell m.usv.on_battery ≤ m.since
unfolding state_handler
check_dwell m r d moved = ground arith

-- From a supply whose relay shows its mode and whose timer covers the shortest stay, after any timer
-- calls, checks and frames: where a check changes the mode, the relay showed the mode up to then, and the
-- check comes at least 200 timer calls (2 s) after the battery was switched on, 10 after the mains.
pub dwell_before_switch :
    (m : Monitor) (es : List Event) (r : Readings)
    → Dwells m
    → (state_handler (run m es).usv r).on_battery ≢ (run m es).usv.on_battery
    → let n = run m es in
      (getpin relais n.usv.board ≡ n.usv.on_battery) × (dwell n.usv.on_battery ≤ n.since)
dwell_before_switch m es r d moved =
    let d' = run-Dwells m es d in (d'.relay, check_dwell (run m es) r d' moved)

-- A check, with the timer run out, decides by the voltages. On battery the supply goes back to the mains
-- exactly if the buffer is low and the battery is not charged, or the buffer holds, the mains are
-- there and the way back is not held; on mains it goes to battery exactly if the buffer is low and the
-- battery is charged, and then holds the way back for 30 counts.
pub check_decides :
    (u : Usv) (r : Readings)
    → u.usv_timer ≡ 0
    → let low = leb r.puffer v_23 in
      let charged = ltb v_24 r.bat in
      let back = low && not charged || not low && (ltb v_24 r.nt && u.switch_back_counter == 0) in
      let q = state_handler u r in
      (q.on_battery ≡ (if u.on_battery then not back else low && charged))
      × (q.switch_back_counter
          ≡ (if not u.on_battery && (low && charged) then 30 else u.switch_back_counter))
unfolding state_handler
check_decides u r t = ground arith
