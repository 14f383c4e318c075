-- ===== src/Multitaster/Streak.antt =====
-- When the potentiometer sends its value (poti.c).
use hcan.Prelude.{
  ℕ, ◌+◌, ◌≤◌, ◌≡◌, Bool, true, List, [], ◌∷◌, arith, if◌then◌else◌, ltb, ◌==◌, ◌&&◌,
}
use hcan.Board.{send, low}
use hcan.Multitaster.Poti.{Poti, get_adc_value, moved, telegram, timer_handler, countdown_init}

-- calls with the measurements of each, the last one first
unfoldable pub run : List ℕ → Poti → Poti
run [] p = p
run (m ∷ ms) p = timer_handler m (run ms p)

-- how many of the last measurements in a row were off the value that was sent
unfoldable pub streak : Poti → List ℕ → ℕ
streak p [] = 0
streak p (m ∷ ms) = let rest = streak p ms in if moved (get_adc_value m) p then rest + 1 else 0

-- no four measurements in a row were off before the last one
unfoldable pub steady : Poti → List ℕ → Bool
steady p [] = true
steady p (m ∷ ms) = let rest = steady p ms in ltb (streak p ms) 4 && rest

record Silent (p q : Poti) (n : ℕ) : Type 0 where
  same_config : q.config ≡ p.config
  same_value : q.last_poti_value ≡ p.last_poti_value
  same_board : q.board ≡ p.board
  counted : q.poti_telegram_countdown + n ≡ 4
  few : n ≤ 4

Silent-step :
    (m : ℕ) (p q : Poti) (n : ℕ)
    → Silent p q n
    → n ≤ 3
    → Silent p (timer_handler m q) (if moved (get_adc_value m) p then n + 1 else 0)
unfolding timer_handler
Silent-step m p q n s le = ground arith

run-Silent :
    (ms : List ℕ) (p : Poti)
    → p.poti_telegram_countdown ≡ countdown_init
    → steady p ms ≡ true
    → Silent p (run ms p) (streak p ms)
unfolding run streak steady
run-Silent [] p c s = ground arith
run-Silent (m ∷ ms) p c s =
    Silent-step m p (run ms p) (streak p ms) (run-Silent ms p c (ground arith)) (ground arith)

sent_now :
    (m : ℕ) (p q : Poti) (n : ℕ)
    → Silent p q n
    → (timer_handler m q).board
      ≡ (if n == 4 then send (telegram (get_adc_value m) p) low p.board else p.board)
unfolding timer_handler
sent_now m p q n s = ground arith

-- Since the potentiometer sent its value, and until four measurements in a row are off that value by more
-- than the tolerance: a call sends its own measurement, whatever it is, if the four before it are the first
-- such four, and sends nothing otherwise.
pub sends_after_streak :
    (m : ℕ) (ms : List ℕ) (p : Poti)
    → p.poti_telegram_countdown ≡ countdown_init
    → steady p ms ≡ true
    → (run (m ∷ ms) p).board
      ≡ (if streak p ms == 4 then send (telegram (get_adc_value m) p) low p.board else p.board)
unfolding run
sends_after_streak m ms p c s = sent_now m p (run ms p) (streak p ms) (run-Silent ms p c s)
