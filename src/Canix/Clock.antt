-- ===== src/Canix/Clock.antt =====
-- canix/canix.c: canix_update_datetime, called every second, and canix_is_date_valid; canix/hcan_rts.c:
-- the reaction to time frames; canix/tools.c: time_matches. All fields are uint8_t.
use hcan.Prelude.{
  ℕ, ◌+◌, ◌-◌, ◌*◌, ◌%◌, ◌^◌, Bool, [], ◌∷◌, ◌&&◌, not, if◌then◌else◌, ◌==◌, ltb, leb,
}
use hcan.Board.{Frame, byte, Board, send, low, bit, proto_sfp}

-- canix_rtc_clock_t without the uptime
pub record Clock : Type 0 where
  pub day_of_week : ℕ
  pub hour : ℕ
  pub minute : ℕ
  pub second : ℕ
  pub last_date_update : ℕ
  pub day_of_month : ℕ
  pub month_of_year : ℕ
  pub year : ℕ

-- the values of canix_rtc_init
unfoldable pub init : Clock
init = record {
  day_of_week = 0;
  hour = 0;
  minute = 0;
  second = 0;
  last_date_update = 255;
  day_of_month = 0;
  month_of_year = 0;
  year = 0;
}

-- an increment of a uint8_t
abbrev pub inc : ℕ → ℕ
inc n = (n + 1) % 256

-- the `switch` on the month: 0 for a month out of range
abbrev pub ndays : ℕ → ℕ
ndays m =
    if m == 2
    then 28
    else if m == 4
    then 30
    else if m == 6
    then 30
    else if m == 9
    then 30
    else if m == 11
    then 30
    else if leb 1 m && leb m 12
    then 31
    else 0

-- a new month, once the day has passed the last one
unfoldable pub next_month : Clock → Clock
next_month c =
    let c' = record c { day_of_month = 1; month_of_year = inc c.month_of_year } in
    if ltb 12 (inc c.month_of_year) then record c' { month_of_year = 1; year = inc c.year } else c'

-- a new day
unfoldable pub next_day : Clock → Clock
unfolding next_month
next_day c =
    let c' = record c {
      hour = 0;
      day_of_week = if inc c.day_of_week == 8 then 1 else inc c.day_of_week;
      day_of_month = inc c.day_of_month;
    } in
    if ltb (ndays c.month_of_year) (inc c.day_of_month) then next_month c' else c'

-- a new hour
unfoldable pub next_hour : Clock → Clock
unfolding next_day
next_hour c =
    let c' = record c {
      minute = 0;
      last_date_update =
          if ltb c.last_date_update 255 then inc c.last_date_update else c.last_date_update;
      hour = inc c.hour;
    } in
    if inc c.hour == 24 then next_day c' else c'

unfoldable pub update_datetime : Clock → Clock
unfolding next_hour
update_datetime c =
    if inc c.second == 60
    then if inc c.minute == 60
      then next_hour (record c { second = 0 })
      else record c { second = 0; minute = inc c.minute }
    else record c { second = inc c.second }

unfoldable pub is_date_valid : Clock → Bool
is_date_valid c = not (c.last_date_update == 255)

abbrev pub srv_rts : ℕ
srv_rts = 6

abbrev pub time_info : ℕ
time_info = 1

abbrev pub date_info : ℕ
date_info = 2

abbrev pub time_request : ℕ
time_request = 3

abbrev pub date_request : ℕ
date_request = 4

-- our_time and their_time: the products are of type int, 16 bits on the AVR, and wrap
unfoldable pub seconds_16 : ℕ → ℕ → ℕ → ℕ
seconds_16 h m s = (s + m * 60 + h * 3600) % 2 ^ 16

-- abs(their_time - our_time) > 3, where abs takes an int
unfoldable pub far_apart : ℕ → ℕ → Bool
far_apart their our = let d = (their + 2 ^ 16 - our) % 2 ^ 16 in ltb 3 d && ltb d (2 ^ 16 - 3)

unfoldable pub on_time_info : Clock → Frame → Clock
unfolding far_apart seconds_16
on_time_info c f =
    let fresh = record c { last_date_update = 0 } in
    if far_apart (seconds_16 (byte f 4) (byte f 5) (byte f 6)) (seconds_16 c.hour c.minute c.second)
    then record fresh {
      second = byte f 6;
      minute = byte f 5;
      hour = byte f 4;
      day_of_week = byte f 3;
    }
    else fresh

unfoldable pub on_date_info : Clock → Frame → Clock
on_date_info c f = record c { day_of_month = byte f 3; month_of_year = byte f 4; year = byte f 5 }

-- a request is answered only if it was sent to this board's own address
unfoldable pub on_time_request : Clock → Frame → Board → Board
on_time_request c f b =
    if f.dst == b.self
    then send
        (record {
          src = b.self;
          dst = f.src;
          proto = proto_sfp;
          size = 7;
          bytes = srv_rts ∷ time_info ∷ 0xff ∷ c.day_of_week ∷ c.hour ∷ c.minute ∷ c.second ∷ [];
        })
        low b
    else b

unfoldable pub on_date_request : Clock → Frame → Board → Board
on_date_request c f b =
    if f.dst == b.self
    then send
        (record {
          src = b.self;
          dst = f.src;
          proto = proto_sfp;
          size = 6;
          bytes = srv_rts ∷ date_info ∷ 0xff ∷ c.day_of_month ∷ c.month_of_year ∷ c.year ∷ [];
        })
        low b
    else b

-- canix_SFP_RTS_handler
unfoldable pub rts_handler : Clock × Board → Frame → Clock × Board
unfolding on_time_info on_date_info on_time_request on_date_request
rts_handler (c, b) f =
    if byte f 1 == time_info
    then (on_time_info c f, b)
    else if byte f 1 == date_info
    then (on_date_info c f, b)
    else if byte f 1 == time_request
    then (c, on_time_request c f b)
    else if byte f 1 == date_request
    then (c, on_date_request c f b)
    else (c, b)

-- time_matches, for a clock and the bounds of a time zone
unfoldable pub time_matches : Clock → ℕ → ℕ → ℕ → ℕ → ℕ → Bool
time_matches c from_hour from_minute to_hour to_minute day_pattern =
    let t1 : ℕ = from_hour * 60 + from_minute in
    let t2 : ℕ = to_hour * 60 + to_minute in
    let tnow : ℕ = c.hour * 60 + c.minute in
    let over = ltb t2 t1 in
    let t2' : ℕ = if over then t2 + 1440 else t2 in
    let tnow' : ℕ = if over && ltb tnow t1 then tnow + 1440 else tnow in
    bit day_pattern c.day_of_week && (leb t1 tnow' && leb tnow' t2')
