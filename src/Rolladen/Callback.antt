-- ===== src/Rolladen/Callback.antt =====
-- rolladen.c: rolladen_can_callback, one function for each `case`.
use hcan.Prelude.{ℕ, ◌+◌, [], ◌∷◌, ◌&&◌, ◌||◌, if◌then◌else◌, ◌==◌, ltb, leb}
use hcan.Prelude.Int.{ℤ, negsuc}
use hcan.Board.{Frame, byte, hes_frame, send, hi}
use hcan.Rolladen.State.{
  State, stop, auf, ab, Command, command_stop, command_auf, command_ab, Dir, dir_auf, dir_ab,
  Rolladen, is_in_group, get_position, set_soll_laufzeit, define_position,
}

abbrev pub taster_down : ℕ
taster_down = 1

abbrev pub taster_up : ℕ
taster_up = 2

abbrev pub position_set : ℕ
position_set = 20

abbrev pub position_request : ℕ
position_request = 21

abbrev pub position_replay : ℕ
position_replay = 22

abbrev pub define_position_command : ℕ
define_position_command = 23

-- a command that no position steers
abbrev manual : Command → Rolladen → Rolladen
manual c p = record p { command = c; soll_laufzeit = negsuc 0; cmdsrc = 0 }

abbrev start : Dir → Rolladen → Rolladen
start dir_auf p = manual command_ab p
start dir_ab p = manual command_auf p

abbrev pressed : State → Rolladen → Rolladen
pressed stop p = start p.last_dir p
pressed auf p = manual command_stop p
pressed ab p = manual command_stop p
pressed _ p = p

unfoldable pub on_taster_down : Rolladen → Frame → Rolladen
on_taster_down p f =
    if p.config.taster == byte f 2
    then record (pressed p.state p) { up_event_counter = ℤ.pos 7 }
    else p

unfoldable pub on_taster_up : Rolladen → Frame → Rolladen
on_taster_up p f =
    if p.config.taster == byte f 2 then record p { up_event_counter = negsuc 0 } else p

-- 200 and 201 are the two directions of a pair of buttons
abbrev pub soll_position : ℕ → ℕ
soll_position n = if n == 200 then 0 else if n == 201 then 100 else n

abbrev approach : Rolladen → ℕ → Rolladen
approach p target =
    if ltb (get_position p) target
    then record (set_soll_laufzeit p target) { command = command_auf }
    else if ltb (target + 1) (get_position p)
    then record (set_soll_laufzeit p target) { command = command_ab }
    else record p { soll_laufzeit = negsuc 0 }

abbrev halt_if_taster : Rolladen → ℕ → Rolladen
halt_if_taster p n =
    if ltb n 200 then p else record p { command = command_stop; soll_laufzeit = negsuc 0 }

abbrev positioned : State → Rolladen → ℕ → Rolladen
positioned stop p n = approach p (soll_position n)
positioned auf p n = halt_if_taster p n
positioned ab p n = halt_if_taster p n
positioned _ p n = p

unfoldable pub on_position_set : Rolladen → Frame → Rolladen
on_position_set p f =
    if is_in_group p (byte f 2) || p.config.taster == byte f 2 && leb 200 (byte f 3)
    then positioned p.state p (byte f 3)
    else p

unfoldable pub on_define_position : Rolladen → Frame → Rolladen
on_define_position p f = if is_in_group p (byte f 2) then define_position p (byte f 3) else p

unfoldable pub on_position_request : Rolladen → Frame → Rolladen
on_position_request p f =
    if is_in_group p (byte f 2)
    then record p {
      board =
          send (hes_frame p.board f.src 4 (position_replay ∷ byte f 2 ∷ get_position p ∷ [])) hi
            p.board;
    }
    else p

unfoldable pub can_callback : Rolladen → Frame → Rolladen
unfolding on_taster_down on_taster_up on_position_set on_define_position on_position_request
can_callback p f =
    if byte f 1 == taster_down
    then on_taster_down p f
    else if byte f 1 == taster_up
    then on_taster_up p f
    else if byte f 1 == position_set
    then on_position_set p f
    else if byte f 1 == define_position_command
    then on_define_position p f
    else if byte f 1 == position_request
    then on_position_request p f
    else p
