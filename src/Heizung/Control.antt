-- ===== src/Heizung/Control.antt =====
-- heizung.c: the two-point control and heizung_timer_handler, called every second. The zones of time come
-- in as `zeitzone_matches` (zeitzone.c); the clock is canix_rtc_clock.
use hcan.Prelude.{
  ℕ, ◌+◌, ◌*◌, ◌-◌, ◌%◌, Bool, true, false, Option, none, some, List, [], ◌∷◌, ◌&&◌, if◌then◌else◌,
  ◌==◌, ltb, leb,
}
use hcan.Prelude.Int.{pos, ◌+ℤ◌, ◌-ℤ◌, ltb_ℤ}
use hcan.Board.{hes_frame, send, low, multicast_info, bit, getpin}
use hcan.Canix.Clock.{Clock}
use hcan.Heizung.State.{
  Mode, off, manual, thermostat, automatik, Line, Heizung, signed_16, is_off, update_heizstop,
  set_pwm, get_pwm, valve, handle_pwm,
}

-- heizung_set_pwm_by_temp: a two-point control with hysteresis
unfoldable pub set_pwm_by_temp : Heizung → ℕ → ℕ → Heizung
unfolding set_pwm get_pwm ◌+ℤ◌ ◌-ℤ◌
set_pwm_by_temp p soll ist =
    let warm = ltb_ℤ (signed_16 soll +ℤ pos p.config.hysterese) (signed_16 ist) in
    let cold = ltb_ℤ (signed_16 ist) (signed_16 soll -ℤ pos p.config.hysterese) in
    if ltb 0 (get_pwm p) && warm
    then set_pwm p 0
    else if get_pwm p == 0 && cold
    then record (set_pwm p 100) { waermebedarf_counter = 210 }
    else p

unfoldable pub check_ventilpflege : Heizung → Clock → Heizung
check_ventilpflege p c =
    let time : ℕ = c.hour * 60 + c.minute in
    if is_off p.mode
      && (p.ventilpflege_counter == 0
          && (c.day_of_week == 7 && time == p.config.id * 3 + (12 * 60 + 0)))
    then record p { ventilpflege_counter = 600 }
    else p

-- the counters at the begin of the handler, around the PWM
abbrev pub count_maintenance : Heizung → Heizung
count_maintenance p = record p { ventilpflege_counter = p.ventilpflege_counter - 1 }

abbrev pub count_received : Heizung → Heizung
count_received p =
    if p.received_interval_counter == 255
    then p
    else record p { received_interval_counter = (p.received_interval_counter + 1) % 256 }

unfoldable pub count_duration : Heizung → Heizung
count_duration p = record p {
  duration_counter = p.duration_counter - 1;
  mode = if p.duration_counter == 1 then automatik else p.mode;
}

abbrev pub count_stop : Heizung → Heizung
count_stop p = record p { reed_heiz_stop_counter = p.reed_heiz_stop_counter - 1 }

unfoldable pub counters : Heizung → Clock → Heizung
unfolding check_ventilpflege handle_pwm count_duration update_heizstop
counters p c =
    let q = count_received (check_ventilpflege (count_maintenance p) c) in
    update_heizstop (count_stop (count_duration (handle_pwm q)))

-- mode OFF: the maintenance of the valve, or closing it
unfoldable pub control_off : Heizung → Heizung
unfolding set_pwm
control_off p =
    let q = record p { manual_rate = 0 } in
    let r = set_pwm q 0 in
    if p.ventilpflege_counter == 0
    then if getpin r.config.port r.board then valve false r else r
    else valve true (set_pwm q 100)

abbrev waermebedarf_info : ℕ
waermebedarf_info = 61

-- the report of the heat that is wanted
unfoldable pub report : Heizung → Heizung
unfolding get_pwm
report p =
    let rate : ℕ = if bit p.config.feature 0 then get_pwm p * 2 % 256 else get_pwm p in
    if p.waermebedarf_counter == 0
    then record p {
      waermebedarf_counter = 60;
      board =
          send (hes_frame p.board multicast_info 4 (waermebedarf_info ∷ p.config.id ∷ rate ∷ []))
            low p.board;
    }
    else record p { waermebedarf_counter = p.waermebedarf_counter - 1 }

module _ (zeitzone_matches : ℕ → Bool) where
  -- heizung_get_matching_zeitzone_index and _id: the first line whose zone matches
  unfoldable pub matching_line : List Line → Option Line
  matching_line [] = none
  matching_line (l ∷ ls) = if zeitzone_matches l.id then some l else matching_line ls

  abbrev pub by_line : Heizung → Option Line → Heizung
  by_line p none = set_pwm p 0
  by_line p (some l) = set_pwm_by_temp p l.temp p.measure_value

  -- the `switch` on the mode, for the modes that do not return
  unfoldable pub control : Mode → Heizung → Heizung
  unfolding set_pwm set_pwm_by_temp matching_line
  control off p = p
  control manual p = set_pwm p p.manual_rate
  control automatik p =
      if ltb p.received_interval_counter 255 then by_line p (matching_line p.config.lines) else p
  control thermostat p =
      if ltb p.received_interval_counter 255
      then set_pwm_by_temp p p.thermostat_temp p.measure_value
      else p

  unfoldable pub timer_handler : Heizung → Clock → Heizung
  timer_handler p c =
      let q = counters p c in
      let r = record q { timer_counter = 0 } in
      if leb 5 q.timer_counter
      then if is_off q.mode then control_off r else report (control r.mode r)
      else report (record q { timer_counter = (q.timer_counter + 1) % 256 })
