-- ===== src/Canix/Day.antt =====
-- The clock of canix/canix.c over seconds, hours and a day.
use hcan.Prelude.{ℕ, zero, suc, ◌+◌, ◌*◌, ◌/◌, ◌%◌, ◌≤◌, ◌<◌, ◌≡◌, arith, if◌then◌else◌, ltb}
use hcan.Canix.Clock.{Clock, ndays, update_datetime, is_date_valid}

pub record IsTime (c : Clock) : Type 0 where
  pub hour : c.hour < 24
  pub minute : c.minute < 60
  pub second : c.second < 60

pub record IsDate (c : Clock) : Type 0 where
  pub month : (1 ≤ c.month_of_year) × (c.month_of_year ≤ 12)
  pub day : (1 ≤ c.day_of_month) × (c.day_of_month ≤ ndays c.month_of_year)
  pub week : (1 ≤ c.day_of_week) × (c.day_of_week ≤ 7)

-- seconds since midnight
abbrev pub time_of : Clock → ℕ
time_of c = c.hour * 3600 + c.minute * 60 + c.second

-- A second later a time of day and a date of the calendar are such again, and the time is one second
-- on, modulo a day.
pub update_datetime-IsTime :
    (c : Clock)
    → IsTime c
    → IsDate c
    → IsTime (update_datetime c)
      × IsDate (update_datetime c)
      × (time_of (update_datetime c) ≡ (time_of c + 1) % 86400)
unfolding update_datetime
update_datetime-IsTime c t d = (ground arith, ground arith, ground arith)

unfoldable pub updates : ℕ → Clock → Clock
updates zero c = c
updates (suc n) c = updates n (update_datetime c)

-- seconds since the last full hour
abbrev pub into_hour : Clock → ℕ
into_hour c = c.minute * 60 + c.second

hour_step :
    (c : Clock)
    → IsTime c
    → c.last_date_update ≤ 255
    → (into_hour (update_datetime c) ≡ (if ltb (into_hour c) 3599 then into_hour c + 1 else 0))
      × ((update_datetime c).last_date_update ≡ (
          if ltb (into_hour c) 3599
          then c.last_date_update
          else if ltb c.last_date_update 255
          then c.last_date_update + 1
          else 255))
      × IsTime (update_datetime c)
unfolding update_datetime
hour_step c t l = (ground arith, ground arith, ground arith)

-- The date counts as valid over n seconds exactly as long as the counter of full hours, which a time
-- frame sets to 0, has not reached 255: it goes up at each full hour, not each second.
pub is_date_valid-updates :
    (n : ℕ) (c : Clock)
    → IsTime c
    → c.last_date_update ≤ 255
    → is_date_valid (updates n c) ≡ ltb (c.last_date_update + (into_hour c + n) / 3600) 255
unfolding updates is_date_valid
is_date_valid-updates zero c t l = ground (arith, t.minute, t.second)
is_date_valid-updates (suc n) c t l =
    let (into, last, t') = hour_step c t l in
    ground (arith, is_date_valid-updates n (update_datetime c) t')
