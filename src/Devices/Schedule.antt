-- ===== src/Devices/Schedule.antt =====
-- timer.c: how often the timer handlers of the devices are called.
use mathlib.Core.Path.{subst}
use hcan.Prelude.{
  ℕ, zero, suc, ◌+◌, ◌-◌, ◌/◌, ◌%◌, ◌≤◌, ◌≡◌, Bool, true, false, ◌||◌, List, [], ◌∷◌, if◌then◌else◌,
  ◌==◌, ltb, All, arith, refl, ◌∙◌,
}
use hcan.Devices.Timer.{
  Timer, start, timer_handler, listed, types_100th, types_10th, types_1, calls, one_if,
  idle_handler, ticks, calls_in,
}

-- the counters after `n` ticks
pub record At (n : ℕ) (t : Timer) : Type 0 where
  pub hundredths : t.counter_100th ≡ n % 10
  pub tenths : t.counter_10th ≡ n / 10 % 10

timer_handler-At : (n : ℕ) (t : Timer) → At n t → At (n + 1) (timer_handler t)
unfolding timer_handler
timer_handler-At n t a = record {
  hundredths = ground (arith, a.hundredths);
  tenths = ground (arith, a.hundredths, a.tenths);
}

ticks-At : (k n : ℕ) (t : Timer) → At n t → At (n + k) (ticks k t)
unfolding ticks
ticks-At zero n t a = record {
  hundredths = ground (arith, a.hundredths);
  tenths = ground (arith, a.tenths);
}
ticks-At (suc k) n t a =
    subst (λ m. At m (timer_handler (ticks k t))) (omega arith)
      (timer_handler-At (n + k) (ticks k t) (ticks-At k n t a))

event_10th-timer_handler :
    (n : ℕ) (t : Timer)
    → At n t
    → (timer_handler t).event_10th ≡ (t.event_10th || ((n + 1) % 10 == 0))
unfolding timer_handler
event_10th-timer_handler n t a = ground (arith, a.hundredths, a.tenths)

event_1-timer_handler :
    (n : ℕ) (t : Timer) → At n t → (timer_handler t).event_1 ≡ (t.event_1 || ((n + 1) % 100 == 0))
unfolding timer_handler
event_1-timer_handler n t a = ground (arith, a.hundredths, a.tenths)

event_10th-ticks :
    (k n : ℕ) (t : Timer)
    → At n t
    → t.event_10th ≡ false
    → (ticks k t).event_10th ≡ ltb (n / 10) ((n + k) / 10)
unfolding ticks
event_10th-ticks zero n t a clear = ground arith
event_10th-ticks (suc k) n t a clear = ground (
  arith,
  event_10th-timer_handler (n + k) (ticks k t) (ticks-At k n t a),
  event_10th-ticks k n t a clear,
)

event_1-ticks :
    (k n : ℕ) (t : Timer)
    → At n t
    → t.event_1 ≡ false
    → (ticks k t).event_1 ≡ ltb (n / 100) ((n + k) / 100)
unfolding ticks
event_1-ticks zero n t a clear = ground arith
event_1-ticks (suc k) n t a clear = ground (
  arith,
  event_1-timer_handler (n + k) (ticks k t) (ticks-At k n t a),
  event_1-ticks k n t a clear,
)

event_100th-ticks : (k : ℕ) (t : Timer) → t.event_100th ≡ false → (ticks k t).event_100th ≡ ltb 0 k
unfolding ticks timer_handler
event_100th-ticks zero t clear = clear
event_100th-ticks (suc k) t clear = ground arith

-- the ticks of some rounds, and the rounds with a tick
unfoldable pub total : List ℕ → ℕ
total [] = 0
total (k ∷ ks) = k + total ks

unfoldable pub busy : List ℕ → ℕ
busy [] = 0
busy (k ∷ ks) = let rest = busy ks in if ltb 0 k then suc rest else rest

abbrev pub AtMost : ℕ → ℕ → Type 0
AtMost n k = k ≤ n

-- the flags are not set
record Clear (t : Timer) : Type 0 where
  clear_100th : t.event_100th ≡ false
  clear_10th : t.event_10th ≡ false
  clear_1 : t.event_1 ≡ false

idle_handler-Clear : (t : Timer) → Clear (idle_handler t)
unfolding idle_handler
idle_handler-Clear t = record { clear_100th = refl; clear_10th = refl; clear_1 = refl }

idle_handler-At : (n : ℕ) (t : Timer) → At n t → At n (idle_handler t)
unfolding idle_handler
idle_handler-At n t a = record { hundredths = a.hundredths; tenths = a.tenths }

-- the calls that are due in the ticks from `n` up to `m`, in rounds of which `rounds` have a tick
abbrev pub due : ℕ → ℕ → ℕ → ℕ → ℕ
due device rounds n m =
    (if listed device types_100th then rounds else 0)
    + (if listed device types_10th then m / 10 - n / 10 else 0)
    + (if listed device types_1 then m / 100 - n / 100 else 0)

due_round :
    (device k n : ℕ) (t : Timer)
    → k ≤ 10
    → At n t
    → Clear t
    → calls device (ticks k t) ≡ due device (one_if (ltb 0 k)) n (n + k)
unfolding calls
due_round device k n t le a c =
    rw
      (
        event_100th-ticks k t c.clear_100th,
        event_10th-ticks k n t a c.clear_10th,
        event_1-ticks k n t a c.clear_1,
      )
      (flagged (listed device types_100th) (listed device types_10th) (listed device types_1) k n
        le)
  where
    flagged :
        (a b c : Bool) (k n : ℕ)
        → k ≤ 10
        → (if ltb 0 k then one_if a else 0)
            + (if ltb (n / 10) ((n + k) / 10) then one_if b else 0)
            + (if ltb (n / 100) ((n + k) / 100) then one_if c else 0)
          ≡ (if a then one_if (ltb 0 k) else 0)
            + (if b then (n + k) / 10 - n / 10 else 0)
            + (if c then (n + k) / 100 - n / 100 else 0)
    flagged a b c k n le = ground arith

due_rounds :
    (device : ℕ) (ks : List ℕ) (n : ℕ) (t : Timer)
    → All (AtMost 10) ks
    → At n t
    → Clear t
    → calls_in device ks t ≡ due device (busy ks) n (n + total ks)
unfolding calls_in total busy
due_rounds device [] n t all a c = ground arith
due_rounds device (k ∷ ks) n t (le, all) a c =
    rw
      (
        due_round device k n t le a c,
        due_rounds device ks (n + k) (idle_handler (ticks k t)) all
            (idle_handler-At (n + k) (ticks k t) (ticks-At k n t a))
            (idle_handler-Clear (ticks k t)),
      )
      (joined (listed device types_100th) (listed device types_10th) (listed device types_1) k n
        (busy ks) (total ks))
  where
    joined :
        (a b c : Bool) (k n r m : ℕ)
        → ((if a then one_if (ltb 0 k) else 0)
              + (if b then (n + k) / 10 - n / 10 else 0)
              + (if c then (n + k) / 100 - n / 100 else 0))
            + ((if a then r else 0)
                + (if b then (n + k + m) / 10 - (n + k) / 10 else 0)
                + (if c then (n + k + m) / 100 - (n + k) / 100 else 0))
          ≡ (if a then (if ltb 0 k then suc r else r) else 0)
            + (if b then (n + (k + m)) / 10 - n / 10 else 0)
            + (if c then (n + (k + m)) / 100 - n / 100 else 0)
    joined a b c k n r m = ground arith

start-At : At 0 start
start-At = record { hundredths = refl; tenths = refl }

start-Clear : Clear start
start-Clear = record { clear_100th = refl; clear_10th = refl; clear_1 = refl }

-- From the start, and in rounds of the main loop of at most 10 ticks each, the timer handler of a
-- device is called once in each round with a tick if its type is in the first switch, and once for each
-- 10 ticks in all if it is in the second and once for each 100 if it is in the third; a type in two of
-- them is called for both.
pub handlers_called :
    (device : ℕ) (ks : List ℕ)
    → All (AtMost 10) ks
    → calls_in device ks start
      ≡ (if listed device types_100th then busy ks else 0)
        + (if listed device types_10th then total ks / 10 else 0)
        + (if listed device types_1 then total ks / 100 else 0)
handlers_called device ks all = due_rounds device ks 0 start all start-At start-Clear ∙ ground arith

seconds_round :
    (device k n : ℕ) (t : Timer)
    → k ≤ 100
    → At n t
    → Clear t
    → listed device types_100th ≡ false
    → listed device types_10th ≡ false
    → listed device types_1 ≡ true
    → calls device (ticks k t) ≡ (n + k) / 100 - n / 100
unfolding calls
seconds_round device k n t le a c not_100th not_10th is_1 =
    rw (not_100th, not_10th, is_1, event_1-ticks k n t a c.clear_1)
      (flagged (ticks k t).event_100th (ticks k t).event_10th)
  where
    flagged :
        (a b : Bool)
        → (if a then 0 else 0)
            + (if b then 0 else 0)
            + (if ltb (n / 100) ((n + k) / 100) then 1 else 0)
          ≡ (n + k) / 100 - n / 100
    flagged a b = ground arith

seconds_rounds :
    (device : ℕ) (ks : List ℕ) (n : ℕ) (t : Timer)
    → All (AtMost 100) ks
    → At n t
    → Clear t
    → listed device types_100th ≡ false
    → listed device types_10th ≡ false
    → listed device types_1 ≡ true
    → calls_in device ks t ≡ (n + total ks) / 100 - n / 100
unfolding calls_in total
seconds_rounds device [] n t all a c not_100th not_10th is_1 = ground arith
seconds_rounds device (k ∷ ks) n t (le, all) a c not_100th not_10th is_1 =
    rw
      (
        seconds_round device k n t le a c not_100th not_10th is_1,
        seconds_rounds device ks (n + k) (idle_handler (ticks k t)) all
            (idle_handler-At (n + k) (ticks k t) (ticks-At k n t a))
            (idle_handler-Clear (ticks k t)) not_100th not_10th is_1,
      )
      (ground arith)

-- From the start, and as long as each round of the main loop takes at most 100 ticks, a second, no call
-- of a handler that belongs to the third switch only is lost: it is called once for each 100 ticks.
pub no_second_lost :
    (device : ℕ) (ks : List ℕ)
    → All (AtMost 100) ks
    → listed device types_100th ≡ false
    → listed device types_10th ≡ false
    → listed device types_1 ≡ true
    → calls_in device ks start ≡ total ks / 100
no_second_lost device ks all not_100th not_10th is_1 =
    seconds_rounds device ks 0 start all start-At start-Clear not_100th not_10th is_1 ∙ ground arith
