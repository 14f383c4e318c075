-- ===== src/Heizung/Duty.antt =====
-- The pulse width modulation of a valve (heizung.c): for how long it is open in a period.
use hcan.Prelude.{
  ℕ, zero, suc, ◌+◌, ◌-◌, ◌*◌, ◌/◌, ◌%◌, ◌≤◌, ◌<◌, ◌≡◌, Bool, arith, refl, ◌∙◌, ap, if◌then◌else◌,
  ltb,
}
use native.Mathlib.Nat.{mul-le-mul_left}
use hcan.Board.{getpin}
use hcan.Heizung.State.{Heizung, handle_pwm, set_pwm}

abbrev pub valve_of : Heizung → Bool
valve_of p = getpin p.config.port p.board

-- n seconds of the modulation
unfoldable pub pwm_seconds : ℕ → Heizung → Heizung
pwm_seconds zero p = p
pwm_seconds (suc n) p = pwm_seconds n (handle_pwm p)

-- in how many of the next n seconds the valve is open
unfoldable pub open_time : ℕ → Heizung → ℕ
open_time zero p = 0
open_time (suc n) p =
    let rest = open_time n (handle_pwm p) in if valve_of (handle_pwm p) then suc rest else rest

-- the valve is open up to the width
record Modulates (p : Heizung) (c w e : ℕ) : Type 0 where
  at_count : p.pwm_counter ≡ c
  at_width : p.pwm_width ≡ w
  at_end : p.pwm_end ≡ e
  shows : valve_of p ≡ ltb c w

wraps :
    (p : Heizung) (n w : ℕ)
    → p.pwm_counter ≡ n
    → p.pwm_end ≡ suc n
    → p.pwm_width ≡ w
    → n < 65535
    → Modulates (handle_pwm p) 0 w (suc n)
unfolding handle_pwm
wraps p n w c e h b = ground arith

counts :
    (p : Heizung) (c w e : ℕ)
    → Modulates p c w e
    → suc c < e
    → e ≤ 65535
    → Modulates (handle_pwm p) (suc c) w e
unfolding handle_pwm
counts p c w e m i b = ground arith

rest_of_period :
    (p : Heizung) (c w e n : ℕ)
    → Modulates p c w e
    → suc (c + n) ≡ e
    → w ≤ e
    → e ≤ 65535
    → (open_time n p ≡ w - suc c) × ((pwm_seconds n p).pwm_counter ≡ c + n)
unfolding open_time pwm_seconds
rest_of_period p c w e zero m last i b = (omega arith, m.at_count ∙ omega arith)
rest_of_period p c w e (suc n) m last i b =
    let m' = counts p c w e m (omega arith) b in
    let (time, at) = rest_of_period (handle_pwm p) (suc c) w e n m' (omega arith) i b in
    (rw (m'.shows, time) (ground arith), at ∙ omega arith)

open_for_width :
    (p : Heizung) (n w : ℕ)
    → p.pwm_counter ≡ n
    → p.pwm_end ≡ suc n
    → p.pwm_width ≡ w
    → w ≤ suc n
    → n < 65535
    → (open_time (suc n) p ≡ w) × ((pwm_seconds (suc n) p).pwm_counter ≡ n)
unfolding open_time pwm_seconds
open_for_width p n w c e h i b =
    let m = wraps p n w c e h b in
    let (time, at) = rest_of_period (handle_pwm p) 0 w (suc n) n m (omega arith) i (omega arith) in
    (rw (m.shows, time) (ground arith), at ∙ omega arith)

width_bound : (n rate : ℕ) → rate ≤ 100 → n * rate / 100 ≤ n
width_bound n rate h = let mono : n * rate ≤ n * 100 = mul-le-mul_left n h in omega arith

set_width :
    (p : Heizung) (rate : ℕ)
    → p.reed_heiz_stop_counter ≡ 0
    → rate ≤ 100
    → p.config.pwm_periode ≤ 255
    → ((set_pwm p rate).pwm_width ≡ p.config.pwm_periode * rate / 100)
      × ((set_pwm p rate).pwm_end ≡ p.config.pwm_periode)
      × ((set_pwm p rate).pwm_counter ≡ p.pwm_counter)
unfolding set_pwm
set_width p rate s h b =
    let small = width_bound p.config.pwm_periode rate h in
    let fits : p.config.pwm_periode * rate / 100 % 65536 ≡ p.config.pwm_periode * rate / 100 =
      omega arith in
    rw s (fits, refl, refl)

-- A circuit that is not stopped by a reed contact, at the end of a period of 1 to 255 seconds, and that is
-- set to a rate of at most 100 percent: in the next period the valve is open for the rate's share of the
-- seconds, rounded down, and the period ends with them.
pub open_for_rate :
    (p : Heizung) (n rate : ℕ)
    → p.reed_heiz_stop_counter ≡ 0
    → p.config.pwm_periode ≡ suc n
    → n < 255
    → p.pwm_counter ≡ n
    → rate ≤ 100
    → (open_time (suc n) (set_pwm p rate) ≡ suc n * rate / 100)
      × ((pwm_seconds (suc n) (set_pwm p rate)).pwm_counter ≡ n)
open_for_rate p n rate s e b c h =
    let (width, end, counter) = set_width p rate s h (omega arith) in
    let small = width_bound (suc n) rate h in
    open_for_width (set_pwm p rate) n (suc n * rate / 100) (counter ∙ c) (end ∙ e)
      (width ∙ ap (λ k. k * rate / 100) e) small (omega arith)
