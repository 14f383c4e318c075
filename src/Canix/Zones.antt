-- ===== src/Canix/Zones.antt =====
-- Time zones and time frames: time_matches of canix/tools.c against the circle of a day's minutes, and
-- the time service of canix/hcan_rts.c.
use hcan.Prelude.{ℕ, ◌+◌, ◌-◌, ◌*◌, ◌%◌, ◌<◌, ◌≡◌, ◌&&◌, arith, leb, ltb, if◌then◌else◌, ◌||◌}
use hcan.Board.{Frame, byte, bit, Board}
use hcan.Canix.Clock.{Clock, time_matches, rts_handler, time_info}
use hcan.Canix.Day.{IsTime, time_of}

-- A time zone with times of day for its bounds matches exactly if today is in its day pattern and the
-- minute of the day lies on the way from its begin to its end, round the clock and with both ends.
pub time_matches_circle :
    (c : Clock) (from_hour from_minute to_hour to_minute day_pattern : ℕ)
    → IsTime c
    → from_hour < 24
    → from_minute < 60
    → to_hour < 24
    → to_minute < 60
    → let t1 = from_hour * 60 + from_minute in
      let t2 = to_hour * 60 + to_minute in
      let tnow = c.hour * 60 + c.minute in
      time_matches c from_hour from_minute to_hour to_minute day_pattern
      ≡ (bit day_pattern c.day_of_week && leb ((tnow + 1440 - t1) % 1440) ((t2 + 1440 - t1) % 1440))
unfolding time_matches
time_matches_circle c fh fm th tm days t a b d e = ground arith

abbrev pub gap : ℕ → ℕ → ℕ
gap a b = a - b + (b - a)

-- A time frame with a time of day sets the clock to its time where the two differ by more than 3
-- seconds, save where they differ by 65533 to 65539 seconds, and marks the date as fresh; else the
-- mark is all that changes.
pub rts_time_info :
    (c : Clock) (b : Board) (f : Frame)
    → IsTime c
    → byte f 1 ≡ time_info
    → byte f 4 < 24
    → byte f 5 < 60
    → byte f 6 < 60
    → let d = gap (byte f 4 * 3600 + byte f 5 * 60 + byte f 6) (time_of c) in
      let fresh = record c { last_date_update = 0 } in
      rts_handler (c, b) f ≡ (
        if ltb 3 d && (ltb d 65533 || ltb 65539 d)
        then (
          record fresh {
            day_of_week = byte f 3;
            hour = byte f 4;
            minute = byte f 5;
            second = byte f 6;
          },
          b,
        )
        else (fresh, b))
unfolding rts_handler
rts_time_info c b f t k h m s = ground arith
