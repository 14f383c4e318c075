-- ===== src/Devices/Timer.antt =====
-- timer.c: the tick of 10 ms (`timer_handler`, in an interrupt), the flags that it sets, and
-- idle_handler in the main loop, which calls the timer handlers of the devices. A device is its type;
-- its timer handler stands with the device. The warning about the free RAM and shiftOut_timer_handler,
-- which idle_handler also calls, are left out. A tick comes between two calls of idle_handler.
use hcan.Prelude.{ℕ, zero, suc, ◌+◌, ◌%◌, Bool, true, false, List, [], ◌∷◌, if◌then◌else◌, ◌==◌}

-- timer_counter_100th, timer_counter_10th, timer_counter_1 and the flags timer_event_*
pub record Timer : Type 0 where
  pub counter_100th : ℕ  -- uint8_t
  pub counter_10th : ℕ  -- uint8_t
  pub counter_1 : ℕ  -- uint8_t
  pub event_100th : Bool
  pub event_10th : Bool
  pub event_1 : Bool

abbrev pub start : Timer
start = record {
  counter_100th = 0;
  counter_10th = 0;
  counter_1 = 0;
  event_100th = false;
  event_10th = false;
  event_1 = false;
}

-- a counter of eight bits
abbrev pub increment : ℕ → ℕ
increment n = (n + 1) % 256

abbrev pub count_100th : Timer → Timer
count_100th t = record t { counter_100th = increment t.counter_100th; event_100th = true }

abbrev pub carry_10th : Timer → Timer
carry_10th t =
    if t.counter_100th == 10
    then record t { counter_10th = increment t.counter_10th; counter_100th = 0; event_10th = true }
    else t

abbrev pub carry_1 : Timer → Timer
carry_1 t =
    if t.counter_10th == 10
    then record t { counter_1 = increment t.counter_1; counter_10th = 0; event_1 = true }
    else t

unfoldable pub timer_handler : Timer → Timer
timer_handler t = carry_1 (carry_10th (count_100th t))

abbrev pub listed : ℕ → List ℕ → Bool
listed n [] = false
listed n (m ∷ ms) = if n == m then true else listed n ms

-- the types in the three switches: multitaster and taster; multitaster, poti, rolladen,
-- rolladenSchlitzpos and schalter; dunstabzugport, helligkeitssensor, heizung, lichtzone, reedkontakt,
-- rolladenAutomat, tempsensor, timeservice, zeitschaltuhr and powerport
abbrev pub types_100th : List ℕ
types_100th = 23 ∷ 10 ∷ []

abbrev pub types_10th : List ℕ
types_10th = 23 ∷ 21 ∷ 12 ∷ 24 ∷ 25 ∷ []

abbrev pub types_1 : List ℕ
types_1 = 19 ∷ 26 ∷ 13 ∷ 17 ∷ 15 ∷ 27 ∷ 14 ∷ 16 ∷ 20 ∷ 11 ∷ []

abbrev pub one_if : Bool → ℕ
one_if true = 1
one_if false = 0

-- one of the three parts of idle_handler: the calls of a handler, by the flag
abbrev pub calls_by : Bool → List ℕ → ℕ → ℕ
calls_by event types device = if event then one_if (listed device types) else 0

-- how often idle_handler calls the timer handler of a device of a type
unfoldable pub calls : ℕ → Timer → ℕ
calls device t =
    calls_by t.event_100th types_100th device
    + calls_by t.event_10th types_10th device
    + calls_by t.event_1 types_1 device

-- the flags after idle_handler
unfoldable pub idle_handler : Timer → Timer
idle_handler t = record t { event_100th = false; event_10th = false; event_1 = false }

unfoldable pub ticks : ℕ → Timer → Timer
unfolding timer_handler
ticks zero t = t
ticks (suc n) t = timer_handler (ticks n t)

-- rounds of the main loop, with the number of ticks in each: the calls for a device of a type
unfoldable pub calls_in : ℕ → List ℕ → Timer → ℕ
unfolding ticks calls idle_handler
calls_in device [] t = 0
calls_in device (k ∷ ks) t =
    calls device (ticks k t) + calls_in device ks (idle_handler (ticks k t))
