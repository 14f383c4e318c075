-- ===== src/Canix/Tick.antt =====
-- canix/canix.c: the clock in the interrupt TIMER0_OVF_vect, which comes 3600 times in a second, and
-- canix_update_datetime in it. The measuring of the main loop's rounds is left out.
use hcan.Prelude.{
  Bool-cases, ==_iff, inl, inr, false, ℕ, zero, suc, ◌+◌, ◌-◌, ◌*◌, ◌/◌, ◌%◌, ◌^◌, ◌<◌, ◌≡◌,
  if◌then◌else◌, ◌==◌, ltb, arith, refl,
}
use hcan.Canix.Clock.{Clock, update_datetime}

-- rtc_clock_counter, the uptime, the clock, canix_sleep_ticker, and how often the callbacks were called
pub record Rtc : Type 0 where
  pub clock_counter : ℕ  -- uint8_t
  pub uptime_sec_100th : ℕ  -- uint8_t
  pub uptime_sec : ℕ  -- uint32_t
  pub clock : Clock
  pub sleep_ticker : ℕ  -- int32_t
  pub callback_calls : ℕ

abbrev pub start : Clock → ℕ → Rtc
start c sleep = record {
  clock_counter = 0;
  uptime_sec_100th = 0;
  uptime_sec = 0;
  clock = c;
  sleep_ticker = sleep;
  callback_calls = 0;
}

-- the hundredths of a second, and the second that they make
abbrev pub count_100th : Rtc → Rtc
count_100th r =
    if (r.uptime_sec_100th + 1) % 256 == 100
    then record r {
      uptime_sec_100th = 0;
      uptime_sec = (r.uptime_sec + 1) % 2 ^ 32;
      clock = update_datetime r.clock;
    }
    else record r { uptime_sec_100th = (r.uptime_sec_100th + 1) % 256 }

-- the callbacks, and the ticker of canix_sleep_100th
abbrev pub call_back : Rtc → Rtc
call_back r = record r { callback_calls = r.callback_calls + 1; sleep_ticker = r.sleep_ticker - 1 }

-- the second part of the interrupt
unfoldable pub interrupt : Rtc → Rtc
interrupt r =
    if ltb 34 r.clock_counter
    then call_back (count_100th (record r { clock_counter = 0 }))
    else record r { clock_counter = (r.clock_counter + 1) % 256 }

unfoldable pub run : ℕ → Rtc → Rtc
run zero r = r
run (suc n) r = interrupt (run n r)

-- seconds of the clock
unfoldable pub seconds : ℕ → Clock → Clock
seconds zero c = c
seconds (suc n) c = update_datetime (seconds n c)

next_share : (n : ℕ) → n % 3600 ≡ 3599 → suc n / 3600 ≡ suc (n / 3600)
next_share n e = omega arith

same_share : (n : ℕ) → (n % 3600 == 3599) ≡ false → suc n / 3600 ≡ n / 3600
same_share n e = ground arith

seconds_next :
    (n : ℕ) (c : Clock)
    → seconds (suc n / 3600) c
      ≡ (if n % 3600 == 3599 then update_datetime (seconds (n / 3600) c) else seconds (n / 3600) c)
unfolding seconds
seconds_next n c = elim (Bool-cases (n % 3600 == 3599)) [
  | inl last ↦ rw (last, next_share n ((==_iff (n % 3600) 3599).0 last)) refl
  | inr before ↦ rw (before, same_share n before) refl
]

-- After n calls of the interrupt from the start, less than 2^32 seconds: the callbacks were called n / 36
-- times, the uptime is n / 3600 seconds and the clock was moved on by as many.
pub clock_keeps_time :
    (n sleep : ℕ) (c : Clock)
    → n < 3600 * 2 ^ 32
    → let r = run n (start c sleep) in
      (r.clock_counter ≡ n % 36)
      × (r.uptime_sec_100th ≡ n / 36 % 100)
      × (r.uptime_sec ≡ n / 3600)
      × (r.callback_calls ≡ n / 36)
      × (r.sleep_ticker ≡ sleep - n / 36)
      × (r.clock ≡ seconds (n / 3600) c)
unfolding run interrupt seconds
clock_keeps_time zero sleep c lt = ground arith
clock_keeps_time (suc n) sleep c lt =
    ground (arith, clock_keeps_time n sleep c (omega arith), seconds_next n c)
