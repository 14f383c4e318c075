-- ===== src/Timeservice/State.antt =====
-- timeservice.c: one of several boards sends the time; a service keeps silent while it hears one with a
-- lower level. The clock, canix_rtc_clock, is an argument.
use hcan.Prelude.{ℕ, ◌+◌, ◌%◌, List, [], ◌∷◌, if◌then◌else◌, ◌==◌, ltb, leb}
use hcan.Prelude.Int.{pos}
use hcan.Board.{Frame, byte, Board, send, low, proto_sfp, multicast_info}
use hcan.Canix.Clock.{Clock, srv_rts, time_info, date_info}
use hcan.Canix.Filters.{Entry}

-- eds_timeservice_block_t
pub record Config : Type 0 where
  pub level : ℕ
  pub takeover_time : ℕ
  pub interval : ℕ

-- device_data_timeservice, with the board that it acts on; the counters are uint8_t
pub record Timeservice : Type 0 where
  pub config : Config
  pub last_time_frame_received : ℕ
  pub last_time_frame_sent : ℕ
  pub board : Board

abbrev pub time_frame : Clock → Timeservice → Frame
time_frame c p = record {
  src = p.board.self;
  dst = multicast_info;
  proto = proto_sfp;
  size = 7;
  bytes = srv_rts ∷ time_info ∷ p.config.level ∷ c.day_of_week ∷ c.hour ∷ c.minute ∷ c.second ∷ [];
}

abbrev pub date_frame : Clock → Timeservice → Frame
date_frame c p = record {
  src = p.board.self;
  dst = multicast_info;
  proto = proto_sfp;
  size = 6;
  bytes = srv_rts ∷ date_info ∷ p.config.level ∷ c.day_of_month ∷ c.month_of_year ∷ c.year ∷ [];
}

-- the end of the interval
abbrev pub send_time : Clock → Timeservice → Timeservice
send_time c p = record p {
  last_time_frame_sent = 0;
  board = send (date_frame c p) low (send (time_frame c p) low p.board);
}

abbrev pub count_received : Timeservice → Timeservice
count_received p = record p {
  last_time_frame_received =
      if ltb p.last_time_frame_received 255
      then p.last_time_frame_received + 1
      else p.last_time_frame_received;
}

-- a second of the one that sends the time
abbrev pub lead : Clock → Timeservice → Timeservice
lead c p =
    if p.last_time_frame_sent == p.config.interval
    then send_time c p
    else record p { last_time_frame_sent = (p.last_time_frame_sent + 1) % 256 }

-- timeservice_timer_handler, called every second
unfoldable pub timer_handler : Clock → Timeservice → Timeservice
timer_handler c p =
    let q = count_received p in
    if leb q.config.takeover_time q.last_time_frame_received then lead c q else q

-- the body of the loop of timeservice_can_callback
abbrev pub hear : Frame → Timeservice → Timeservice
hear f p = if ltb (byte f 2) p.config.level then record p { last_time_frame_received = 0 } else p

-- timeservice_can_callback, on the time services among the devices of a board
unfoldable pub can_callback : List Timeservice → Frame → List Timeservice
can_callback [] f = []
can_callback (p ∷ ps) f = (if byte f 1 == time_info then hear f p else p) ∷ can_callback ps f

-- the entry under which main registers the callback
abbrev pub entry : Entry
entry = record { callback = 1; dst = pos multicast_info; proto = proto_sfp; srv = srv_rts }
