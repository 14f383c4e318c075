-- ===== src/Lichtzone/Callback.antt =====
-- lichtzone.c: lichtzone_can_callback, one function for each `case` and each loop.
use hcan.Prelude.{
  ℕ, ◌+◌, ◌%◌, Bool, true, false, List, [], ◌∷◌, ◌&&◌, if◌then◌else◌, ◌==◌, ltb, leb,
}
use hcan.Board.{Frame, byte, hes_frame, send, hi, msb, lsb, word}
use hcan.Lichtzone.State.{
  State, off, on, on_ext, Lichtzone, has_timer, setup_timer, inform_action_groups,
  on_power_group_on, on_power_group_off, power_group_on, power_group_off,
}

abbrev pub taster_down : ℕ
taster_down = 1

abbrev pub timer_query : ℕ
timer_query = 14

abbrev pub timer_replay : ℕ
timer_replay = 15

abbrev pub set_timer : ℕ
set_timer = 16

-- LICHTZONE_EXT_TIMERINIT and LICHTZONE_EXT_SEC_COUNTER_MAX
abbrev pub ext_timerinit : ℕ
ext_timerinit = 14400

abbrev pub ext_sec_counter_max : ℕ
ext_sec_counter_max = 3

-- the third press in time
abbrev pub is_third : Lichtzone → Bool
is_third p =
    leb 3 p.exton_taster_down_counter
    && (ltb 0 p.exton_sec_counter && ltb p.exton_sec_counter ext_sec_counter_max)

unfoldable pub extend_on : Lichtzone → Lichtzone
extend_on p = inform_action_groups (record p {
  exton_sec_counter = 0;
  exton_taster_down_counter = 0;
  state = on_ext;
  timer_counter = ext_timerinit;
})

-- a press with and without a timer
unfoldable pub toggle_timed : State → Lichtzone → Lichtzone
toggle_timed off p = inform_action_groups (record (setup_timer p) { state = on })
toggle_timed on p = setup_timer p
toggle_timed on_ext p = inform_action_groups (record p {
  state = off;
  exton_sec_counter = 0;
  exton_taster_down_counter = 0;
  timer_counter = 0;
})

abbrev toggled : State → State
toggled off = on
toggled on = off
toggled on_ext = off

unfoldable pub toggle : Lichtzone → Lichtzone
unfolding toggle_timed
toggle p =
    if has_timer p
    then toggle_timed p.state p
    else inform_action_groups (record p { state = toggled p.state })

-- the loop over the toggle groups; the flag says whether the handler returns
unfoldable pub toggle_loop : List ℕ → ℕ → Lichtzone → Lichtzone × Bool
unfolding extend_on toggle
toggle_loop [] n p = (p, false)
toggle_loop (g ∷ gs) n p =
    let rest = toggle_loop gs n (if n == g then toggle p else p) in
    if n == g && is_third p then (extend_on p, true) else rest

-- the loops over the off groups and the on groups
unfoldable pub off_loop : List ℕ → ℕ → Lichtzone → Lichtzone
off_loop [] n p = p
off_loop (g ∷ gs) n p =
    off_loop gs n
      (if n == g then inform_action_groups (record p { state = off; timer_counter = 0 }) else p)

abbrev pub lit : Lichtzone → Lichtzone
lit p = let q = record p { state = on } in if has_timer p then setup_timer q else q

unfoldable pub on_loop : List ℕ → ℕ → Lichtzone → Lichtzone
on_loop [] n p = p
on_loop (g ∷ gs) n p = on_loop gs n (if n == g then inform_action_groups (lit p) else p)

abbrev pub count_press : Lichtzone → Lichtzone
count_press p = record p {
  exton_sec_counter = if p.exton_sec_counter == 0 then 1 else p.exton_sec_counter;
  exton_taster_down_counter = (p.exton_taster_down_counter + 1) % 256;
}

abbrev pub after_toggle : Lichtzone × Bool → ℕ → Lichtzone
after_toggle (p, true) n = p
after_toggle (p, false) n = on_loop p.config.on_gruppen n (off_loop p.config.off_gruppen n p)

unfoldable pub on_taster_down : Lichtzone → Frame → Lichtzone
unfolding toggle_loop off_loop on_loop
on_taster_down p f =
    after_toggle (toggle_loop p.config.toggle_gruppen (byte f 2) (count_press p)) (byte f 2)

-- HCAN_HES_POWER_GROUP_TIMER_QUERY
unfoldable pub timer_query_loop : List ℕ → Frame → Lichtzone → Lichtzone
timer_query_loop [] f p = p
timer_query_loop (g ∷ gs) f p =
    let rest = timer_query_loop gs f p in
    if g == byte f 2
    then record p {
      board =
          send
            (hes_frame p.board f.src 5
              (timer_replay ∷ g ∷ msb p.timer_counter ∷ lsb p.timer_counter ∷ []))
            hi p.board;
    }
    else rest

-- HCAN_HES_POWER_GROUP_SET_TIMER
unfoldable pub set_timer_loop : List ℕ → Frame → Lichtzone → Lichtzone
set_timer_loop [] f p = p
set_timer_loop (g ∷ gs) f p =
    let rest = set_timer_loop gs f p in
    if g == byte f 2 then record p { timer_counter = word (byte f 3) (byte f 4) } else rest

unfoldable pub can_callback : Lichtzone → Frame → Lichtzone
unfolding on_taster_down timer_query_loop set_timer_loop
can_callback p f =
    if byte f 1 == taster_down
    then on_taster_down p f
    else if byte f 1 == power_group_on
    then on_power_group_on p f
    else if byte f 1 == power_group_off
    then on_power_group_off p f
    else if byte f 1 == timer_query
    then timer_query_loop p.config.action_gruppen f p
    else if byte f 1 == set_timer
    then set_timer_loop p.config.action_gruppen f p
    else p
