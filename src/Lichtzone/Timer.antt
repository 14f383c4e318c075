-- ===== src/Lichtzone/Timer.antt =====
-- lichtzone.c: lichtzone_timer_handler, called every second.
use hcan.Prelude.{ℕ, ◌+◌, ◌-◌, ◌%◌, ◌&&◌, if◌then◌else◌, ◌==◌, ltb, leb}
use hcan.Lichtzone.State.{off, Lichtzone, has_timer, inform_action_groups}
use hcan.Lichtzone.Callback.{ext_sec_counter_max}

-- the timer of the zone
unfoldable pub run_timer : Lichtzone → Lichtzone
run_timer p =
    let q = record p { timer_counter = p.timer_counter - 1 } in
    if has_timer p && ltb 0 p.timer_counter
    then if p.timer_counter == 1 then inform_action_groups (record q { state = off }) else q
    else p

-- the window for three presses
unfoldable pub run_window : Lichtzone → Lichtzone
run_window p =
    let sec : ℕ =
      if leb 1 p.exton_sec_counter then (p.exton_sec_counter + 1) % 256 else p.exton_sec_counter in
    let q = record p { exton_sec_counter = sec } in
    if leb ext_sec_counter_max sec
    then record q { exton_sec_counter = 0; exton_taster_down_counter = 0 }
    else q

unfoldable pub timer_handler : Lichtzone → Lichtzone
unfolding run_timer run_window
timer_handler p = run_window (run_timer p)
