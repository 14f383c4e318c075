-- ===== src/Rolladen/Lowlevel.antt =====
-- rolladen.c: rolladen_lowlevel_timer_handler, called every 100 ms. Its `switch` is `advance`, the two
-- blocks that count the way are `travel_auf` and `travel_ab`, and the end is `watch_taster`.
use hcan.Prelude.{ℕ, ◌+◌, ◌-◌, ◌%◌, ◌^◌, Bool, true, false, ◌&&◌, not, if◌then◌else◌, ◌==◌, ltb}
use hcan.Prelude.Int.{ℤ, pos, negsuc, ◌+ℤ◌, ◌-ℤ◌, ltb_ℤ, leb_ℤ, eqb_ℤ}
use hcan.Board.{setpin}
use hcan.Rolladen.State.{
  State, stop, auf_wait, auf, stop_wait_1, ab_wait_1, ab_wait_2, ab, stop_wait_2, stop_wait_3,
  dir_change_wait_1, dir_change_wait_2, dir_change_wait_3, Command, ready, command_stop,
  command_auf, command_ab, command_dir_change, Dir, dir_auf, dir_ab, Rolladen, laufzeit_align,
  min_laufzeit, max_laufzeit, send_changed_info,
}

-- darlingtonoutput_setpin on the two relays
abbrev power : Bool → Rolladen → Rolladen
power v p = record p { board = setpin p.config.port_power v p.board }

abbrev dir : Bool → Rolladen → Rolladen
dir v p = record p { board = setpin p.config.port_dir v p.board }

-- enter a state with the wait counter set
abbrev enter : State → ℕ → Rolladen → Rolladen
enter s n p = record p { state = s; wait_counter = n }

abbrev opposite : Dir → Command
opposite dir_ab = command_auf
opposite dir_auf = command_ab

abbrev in_stop : Command → Rolladen → Rolladen
in_stop command_auf p = enter auf_wait 3 (power true (record p { command = ready }))
in_stop command_ab p = enter ab_wait_1 2 (dir true (record p { command = ready }))
in_stop command_dir_change p = record p { command = opposite p.last_dir }
in_stop _ p = p

abbrev in_auf : Command → Rolladen → Rolladen
in_auf command_stop p = enter stop_wait_1 3 (power false (record p { command = ready }))
in_auf command_dir_change p = enter dir_change_wait_1 6 (power false (record p { command = ready }))
in_auf _ p = p

abbrev in_ab : Command → Rolladen → Rolladen
in_ab command_stop p = enter stop_wait_2 6 (power false (record p { command = ready }))
in_ab command_dir_change p = enter dir_change_wait_2 6 (power false (record p { command = ready }))
in_ab _ p = p

-- rolladen_send_changed_info, then rolladen_laufzeit_align
abbrev halted : Rolladen → Rolladen
halted p = laufzeit_align (send_changed_info (record p { state = stop }))

-- the `switch` on lowlevel_state
unfoldable pub advance : State → Rolladen → Rolladen
advance stop p = in_stop p.command p
advance auf_wait p = if p.wait_counter == 0 then record p { state = auf; last_dir = dir_auf } else p
advance auf p = in_auf p.command p
advance stop_wait_1 p = if p.wait_counter == 0 then halted p else p
advance ab_wait_1 p = if p.wait_counter == 0 then enter ab_wait_2 3 (power true p) else p
advance ab_wait_2 p = if p.wait_counter == 0 then record p { state = ab; last_dir = dir_ab } else p
advance ab p = in_ab p.command p
advance stop_wait_2 p = if p.wait_counter == 0 then enter stop_wait_3 3 (dir false p) else p
advance stop_wait_3 p = if p.wait_counter == 0 then halted p else p
advance dir_change_wait_1 p = if p.wait_counter == 0 then enter ab_wait_1 3 (dir true p) else p
advance dir_change_wait_2 p =
    if p.wait_counter == 0 then enter dir_change_wait_3 3 (dir false p) else p
advance dir_change_wait_3 p = if p.wait_counter == 0 then enter auf_wait 3 (power true p) else p

unfoldable pub tick_wait : Rolladen → Rolladen
tick_wait p = record p { wait_counter = p.wait_counter - 1 }

abbrev pub moves_auf : State → Bool
moves_auf auf_wait = true
moves_auf auf = true
moves_auf _ = false

abbrev pub moves_ab : State → Bool
moves_ab ab_wait_1 = true
moves_ab ab_wait_2 = true
moves_ab ab = true
moves_ab _ = false

abbrev no_soll : ℤ
no_soll = negsuc 0

-- the way counted up; the flag says whether the handler returns
unfoldable pub travel_auf : Rolladen → Rolladen × Bool
unfolding ◌+ℤ◌ max_laufzeit
travel_auf p =
    let summe : ℕ = (p.summe_laufzeit + 1) % 2 ^ 32 in
    let way : ℤ = p.laufzeit +ℤ pos 1 in
    let reached = not (eqb_ℤ p.soll_laufzeit no_soll) && leb_ℤ p.soll_laufzeit way in
    let counted = record p {
      summe_laufzeit = summe;
      laufzeit = way;
      soll_laufzeit = if reached then no_soll else p.soll_laufzeit;
      command = if reached then command_stop else p.command;
    } in
    if ltb summe p.config.max_rekalib
    then if leb_ℤ (pos p.config.laufzeit) way
      then (record counted { command = command_stop }, true)
      else (counted, false)
    else if ltb_ℤ (max_laufzeit p.config) way
    then (
      record counted {
        laufzeit = pos p.config.laufzeit;
        summe_laufzeit = 0;
        command = command_stop;
      },
      true,
    )
    else (counted, false)

-- the way counted down
unfoldable pub travel_ab : Rolladen → Rolladen × Bool
unfolding ◌-ℤ◌ min_laufzeit
travel_ab p =
    let summe : ℕ = (p.summe_laufzeit + 1) % 2 ^ 32 in
    let way : ℤ = p.laufzeit -ℤ pos 1 in
    let reached = not (eqb_ℤ p.soll_laufzeit no_soll) && leb_ℤ way p.soll_laufzeit in
    let counted = record p {
      summe_laufzeit = summe;
      laufzeit = way;
      soll_laufzeit = if reached then no_soll else p.soll_laufzeit;
      command = if reached then command_stop else p.command;
    } in
    if ltb summe p.config.max_rekalib
    then if leb_ℤ way (pos 0)
      then (record counted { command = command_stop }, true)
      else (counted, false)
    else if ltb_ℤ way (min_laufzeit p.config)
    then (record counted { laufzeit = pos 0; summe_laufzeit = 0; command = command_stop }, true)
    else (counted, false)

-- the end of the handler: a button that stays down reverses the direction
unfoldable pub watch_taster : Rolladen → Rolladen
unfolding ◌-ℤ◌
watch_taster p =
    let left = p.up_event_counter -ℤ pos 1 in
    if ltb_ℤ (pos 0) p.up_event_counter
    then record p {
      up_event_counter = left;
      command = if eqb_ℤ left (pos 0) then command_dir_change else p.command;
    }
    else p

unfoldable pub travel : Rolladen → Rolladen × Bool
unfolding travel_auf travel_ab
travel p =
    if moves_auf p.state then travel_auf p else if moves_ab p.state then travel_ab p else (p, false)

abbrev finish : Rolladen × Bool → Rolladen
finish (p, true) = p
finish (p, false) = watch_taster p

unfoldable pub timer_handler : Rolladen → Rolladen
unfolding tick_wait advance travel watch_taster
timer_handler p = let q = tick_wait p in finish (travel (advance q.state q))
