-- ===== src/Examples/Canix.antt =====
-- Frames, the callback table, the receive queue and the clock of canix/ at concrete values.
use mathlib.Core.List.{Perm}
use hcan.Prelude.{
  ℕ, ◌/◌, ◌+◌, ◌*◌, ◌%◌, ◌^◌, ◌-◌, ◌≤◌, ◌≡◌, ◌++◌, refl, Bool, true, false, List, [], ◌∷◌, arith,
  length, replicate, leb, ◌&&◌,
}
use hcan.Prelude.Int.{negsuc}
use hcan.Board.{Frame, hi, Board, bit}
use hcan.Canix.Ident.{extid}
use hcan.Canix.Transmit.{
  TxBuffer, Controller, RxBuffer, tx_index, sendable, frame_send, any_sendable, send_message,
  send_in, id_regs, data_of, read_rx, frame_of,
}
use hcan.Canix.Wire.{frame_arrives}
use hcan.Canix.Filters.{Entry}
use hcan.Canix.Queue.{Message, empty_slot}
use hcan.Canix.Conservation.{contents}
use hcan.Canix.Delivery.{Event, IsShort, arrives, reads, run, start, queue_conserves}
use hcan.Canix.Clock.{Clock, update_datetime, time_matches}
use hcan.Canix.Day.{IsTime, IsDate}
use hcan.Canix.Tick
use hcan.Canix.Tick.{seconds, clock_keeps_time}
use hcan.Canix.Zones.{time_matches_circle}

abbrev press : Frame
press = record { src = 7; dst = 35; proto = 1; size = 3; bytes = 5 ∷ 1 ∷ 17 ∷ [] }

abbrev buffer : Bool → TxBuffer
buffer busy = record {
  txreq = busy;
  id = record { sidh = 0; sidl = 0; eid8 = 0; eid0 = 0 };
  dlc = 0;
  bytes = [];
}

-- the first buffer is not sent yet
abbrev controller : Controller
controller = record {
  buffers = buffer true ∷ buffer false ∷ buffer false ∷ [];
  tx_sent = 1;
  tx_dropped = 0;
}

-- 0x00108c07: the receiving controller sets the flag IDE, bit 3 of SIDL
abbrev arrived : RxBuffer
arrived = record {
  id = record { sidh = 0; sidl = 136; eid8 = 140; eid0 = 7 };
  dlc = 3;
  bytes = 5 ∷ 1 ∷ 17 ∷ [];
}

frame_arrives_example : frame_of (read_rx arrived) ≡ press
unfolding tx_index sendable frame_send any_sendable send_message send_in id_regs extid data_of
frame_arrives_example =
    frame_arrives [] press hi controller 1 arrived (omega arith) (omega arith) (omega arith) refl
      (omega arith) refl
      (record {
        same_sidh = refl;
        same_low = refl;
        same_high = refl;
        same_eid8 = refl;
        same_eid0 = refl;
        same_dlc = refl;
        same_bytes = refl;
      })

abbrev free : Entry
free = record { callback = 0; dst = negsuc 0; proto = 0; srv = 0 }

-- hauselektrik_callback in main.c
abbrev house : Entry
house = record { callback = 9; dst = negsuc 0; proto = 1; srv = 5 }

abbrev message : ℕ → Message
message n = record { extended = n; bytes = 5 ∷ n ∷ [] }

abbrev traffic : List Event
traffic = arrives (message 1) ∷ arrives (message 2) ∷ reads ∷ reads ∷ reads ∷ []

queue_conserves_example :
    let t = run (start (replicate 12 empty_slot)) traffic in
    Perm t.accepted (t.delivered ++ contents t.queue.slots)
    × (length (contents t.queue.slots) ≤ 12)
    × (t.queue.received ≡ length t.accepted % 2 ^ 32)
    × (t.queue.lost ≡ length t.refused % 2 ^ 32)
unfolding IsShort
queue_conserves_example =
    queue_conserves (replicate 12 empty_slot) traffic refl
      (omega arith, (omega arith, (tt, (tt, (tt, tt)))))

-- the last second of a December
abbrev eve : Clock
eve = record {
  day_of_week = 7;
  hour = 23;
  minute = 59;
  second = 59;
  last_date_update = 12;
  day_of_month = 31;
  month_of_year = 12;
  year = 9;
}

new_year : ((update_datetime eve).month_of_year ≡ 1) × ((update_datetime eve).year ≡ 10)
unfolding update_datetime
new_year = (refl, refl)

eve-IsTime : IsTime eve
eve-IsTime = omega arith

eve-IsDate : IsDate eve
eve-IsDate = omega arith

-- 22:00 to 6:00
time_matches_circle_example : time_matches eve 22 0 6 0 0x80 ≡ (
    bit 0x80 eve.day_of_week
    && leb
        ((eve.hour * 60 + eve.minute + 1440 - (22 * 60 + 0)) % 1440)
        ((6 * 60 + 0 + 1440 - (22 * 60 + 0)) % 1440))
time_matches_circle_example =
    time_matches_circle eve 22 0 6 0 0x80 eve-IsTime (omega arith) (omega arith) (omega arith)
      (omega arith)

abbrev noon : Frame
noon = record { src = 1; dst = 36; proto = 1; size = 7; bytes = 6 ∷ 1 ∷ 0 ∷ 3 ∷ 12 ∷ 0 ∷ 5 ∷ [] }

abbrev board : Board
board = record { self = 100; pins = λ k. false; sent = [] }

-- 2 s and a half
clock_keeps_time_example :
    let r = Tick.run 9000 (Tick.start eve 0) in
    (r.clock_counter ≡ 9000 % 36)
    × (r.uptime_sec_100th ≡ 9000 / 36 % 100)
    × (r.uptime_sec ≡ 9000 / 3600)
    × (r.callback_calls ≡ 9000 / 36)
    × (r.sleep_ticker ≡ 0 - 9000 / 36)
    × (r.clock ≡ seconds (9000 / 3600) eve)
clock_keeps_time_example = clock_keeps_time 9000 0 eve (omega arith)
