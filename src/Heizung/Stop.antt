-- ===== src/Heizung/Stop.antt =====
-- The stop of the heating while a window is open (heizung.c).
use hcan.Prelude.{
  ℕ, suc, ◌+◌, ◌-◌, ◌<◌, ◌≡◌, Bool, true, false, arith, refl, ◌∙◌, ap, ltb, leb, length, ◌%◌, List,
  [], ◌∷◌, Option, none, some, if◌then◌else◌,
}
use hcan.Canix.Clock.{Clock}
use hcan.Heizung.State.{
  Line, Mode, off, manual, thermostat, automatik, Heizung, is_off, handle_pwm, set_pwm,
  update_heizstop,
}
use hcan.Heizung.Control.{
  set_pwm_by_temp, check_ventilpflege, count_duration, counters, control, report, matching_line,
  by_line, timer_handler,
}
use hcan.Heizung.Duty.{valve_of}

-- a stop with k seconds left, in a circuit that is not off
record Stops (k : ℕ) (p : Heizung) : Type 0 where
  left : p.reed_heiz_stop_counter ≡ k
  wanted : is_off p.mode ≡ false

-- nothing is asked of the valve, and it is shut
record IsShut (p : Heizung) : Type 0 where
  width : p.pwm_width ≡ 0
  shut : valve_of p ≡ false

counters-Stops :
    (k : ℕ) (p : Heizung) (c : Clock)
    → Stops (suc (suc k)) p
    → Stops (suc k) (counters p c) × ((counters p c).pwm_width ≡ 0)
unfolding counters check_ventilpflege handle_pwm count_duration update_heizstop
counters-Stops k p c s = ground arith

counters-IsShut :
    (k : ℕ) (p : Heizung) (c : Clock)
    → Stops (suc (suc k)) p
    → p.pwm_width ≡ 0
    → valve_of (counters p c) ≡ false
unfolding counters check_ventilpflege handle_pwm count_duration update_heizstop
counters-IsShut k p c s w = ground arith

-- what the rest of the handler keeps of a stopped circuit
record StaysShut (p q : Heizung) : Type 0 where
  width : q.pwm_width ≡ 0
  pin : valve_of q ≡ valve_of p
  left : q.reed_heiz_stop_counter ≡ p.reed_heiz_stop_counter
  mode : q.mode ≡ p.mode

set_pwm-StaysShut :
    (k rate : ℕ) (p : Heizung) → p.reed_heiz_stop_counter ≡ suc k → StaysShut p (set_pwm p rate)
unfolding set_pwm update_heizstop
set_pwm-StaysShut k rate p s = ground arith

by_temp-StaysShut :
    (k soll ist : ℕ) (p : Heizung)
    → p.reed_heiz_stop_counter ≡ suc k
    → p.pwm_width ≡ 0
    → StaysShut p (set_pwm_by_temp p soll ist)
unfolding set_pwm_by_temp set_pwm update_heizstop
by_temp-StaysShut k soll ist p s w = ground arith

report-StaysShut : (p q : Heizung) → StaysShut p q → StaysShut p (report q)
unfolding report
report-StaysShut p q s = ground arith

either-StaysShut :
    (b : Bool) (p q r : Heizung) → StaysShut p q → StaysShut p r → StaysShut p (if b then q else r)
either-StaysShut true p q r x y = x
either-StaysShut false p q r x y = y

same-StaysShut : (p : Heizung) → p.pwm_width ≡ 0 → StaysShut p p
same-StaysShut p w = record { width = w; pin = refl; left = refl; mode = refl }

module _ (zeitzone_matches : ℕ → Bool) where
  by_line-StaysShut :
      (k : ℕ) (p : Heizung) (line : Option Line)
      → p.reed_heiz_stop_counter ≡ suc k
      → p.pwm_width ≡ 0
      → StaysShut p (by_line zeitzone_matches p line)
  by_line-StaysShut k p none s w = set_pwm-StaysShut k 0 p s
  by_line-StaysShut k p (some l) s w = by_temp-StaysShut k l.temp p.measure_value p s w

  control-StaysShut :
      (m : Mode) (k : ℕ) (p : Heizung)
      → p.reed_heiz_stop_counter ≡ suc k
      → p.pwm_width ≡ 0
      → StaysShut p (control zeitzone_matches m p)
  unfolding control
  control-StaysShut off k p s w = same-StaysShut p w
  control-StaysShut manual k p s w = set_pwm-StaysShut k p.manual_rate p s
  control-StaysShut thermostat k p s w =
      either-StaysShut (ltb p.received_interval_counter 255) p
        (set_pwm_by_temp p p.thermostat_temp p.measure_value) p
        (by_temp-StaysShut k p.thermostat_temp p.measure_value p s w) (same-StaysShut p w)
  control-StaysShut automatik k p s w =
      let line = matching_line zeitzone_matches p.config.lines in
      either-StaysShut (ltb p.received_interval_counter 255) p (by_line zeitzone_matches p line) p
        (by_line-StaysShut k p line s w) (same-StaysShut p w)

  rest-StaysShut :
      (k : ℕ) (p : Heizung) (c : Clock)
      → Stops (suc k) (counters p c)
      → (counters p c).pwm_width ≡ 0
      → StaysShut (counters p c) (timer_handler zeitzone_matches p c)
  unfolding timer_handler
  rest-StaysShut k p c s w =
      let q = counters p c in
      let r = record q { timer_counter = 0 } in
      let idle = record q { timer_counter = (q.timer_counter + 1) % 256 } in
      let busy = control zeitzone_matches r.mode r in
      let shut = control-StaysShut r.mode k r s.left w in
      rw s.wanted (
        either-StaysShut (leb 5 q.timer_counter) q (report busy) (report idle)
          (report-StaysShut q busy
            (record { width = shut.width; pin = shut.pin; left = shut.left; mode = shut.mode }))
          (report-StaysShut q idle (record { width = w; pin = refl; left = refl; mode = refl })))

  second-Stops :
      (k : ℕ) (p : Heizung) (c : Clock)
      → Stops (suc (suc k)) p
      → Stops (suc k) (timer_handler zeitzone_matches p c)
        × ((timer_handler zeitzone_matches p c).pwm_width ≡ 0)
  second-Stops k p c s =
      let (s', w) = counters-Stops k p c s in
      let r = rest-StaysShut k p c s' w in
      (record { left = r.left ∙ s'.left; wanted = ap is_off r.mode ∙ s'.wanted }, r.width)

  second-IsShut :
      (k : ℕ) (p : Heizung) (c : Clock)
      → Stops (suc (suc k)) p
      → p.pwm_width ≡ 0
      → IsShut (timer_handler zeitzone_matches p c)
  second-IsShut k p c s w =
      let (s', w') = counters-Stops k p c s in
      let r = rest-StaysShut k p c s' w' in
      record { width = r.width; shut = r.pin ∙ counters-IsShut k p c s w }

-- a second: the clock, and the zones that match
pub record Second : Type 0 where
  pub clock : Clock
  pub zones : ℕ → Bool

unfoldable pub second : Second → Heizung → Heizung
second t p = timer_handler t.zones p t.clock

-- calls of the timer handler, a second apart
unfoldable pub seconds : List Second → Heizung → Heizung
unfolding second
seconds [] p = p
seconds (t ∷ ts) p = seconds ts (second t p)

stays_shut :
    (ts : List Second) (k : ℕ) (p : Heizung)
    → Stops (length ts + suc k) p
    → IsShut p
    → valve_of (seconds ts p) ≡ false
unfolding seconds second
stays_shut [] k p s i = i.shut
stays_shut (t ∷ ts) k p s i =
    let left : p.reed_heiz_stop_counter ≡ suc (suc (length ts + k)) = s.left ∙ omega arith in
    let s' : Stops (suc (suc (length ts + k))) p = record { left = left; wanted = s.wanted } in
    let (r, w) = second-Stops t.zones (length ts + k) p t.clock s' in
    let r' : Stops (length ts + suc k) (second t p) = record {
      left = r.left ∙ omega arith;
      wanted = r.wanted;
    } in
    stays_shut ts k (second t p) r' (second-IsShut t.zones (length ts + k) p t.clock s' i.width)

-- A circuit that is not off and whose reed stop runs for more than n + 2 seconds, with no frame
-- meanwhile: after n + 2 seconds the valve is shut, whatever the mode, and whatever the clock and the
-- zones that match are in each second.
pub stop_shuts :
    (p : Heizung) (t u : Second) (ts : List Second)
    → is_off p.mode ≡ false
    → length ts + 2 < p.reed_heiz_stop_counter
    → valve_of (seconds (t ∷ u ∷ ts) p) ≡ false
unfolding seconds second
stop_shuts p t u ts o l =
    let k = p.reed_heiz_stop_counter - length ts - 3 in
    let p2 = second t p in
    let s1 : Stops (suc (suc (suc (length ts + k)))) p = record {
      left = omega arith;
      wanted = o;
    } in
    let (s2, w) = second-Stops t.zones (suc (length ts + k)) p t.clock s1 in
    let (s3, v) = second-Stops u.zones (length ts + k) p2 u.clock s2 in
    let s : Stops (length ts + suc k) (second u p2) = record {
      left = s3.left ∙ omega arith;
      wanted = s3.wanted;
    } in
    stays_shut ts k (second u p2) s (second-IsShut u.zones (length ts + k) p2 u.clock s2 w)
