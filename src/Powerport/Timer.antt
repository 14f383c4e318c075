-- ===== src/Powerport/Timer.antt =====
-- Delays of a power port (powerport.c) with a plain relay: what its timer does in the end, and nothing
-- before.
use hcan.Prelude.{
  ℕ, zero, suc, ◌+◌, ◌<◌, ◌≡◌, Bool, true, false, arith, refl, if◌then◌else◌, ◌||◌, ◌&&◌, not,
}
use hcan.Board.{getpin}
use hcan.Powerport.State.{
  Powerport, bistable_relais, verzoegert_ein, auto_aus, nachlauf, weck_verzoegert_ein,
  weck_auto_aus, has, set_or_timer, steigende, fallende, delay_of,
}
use hcan.Powerport.Handlers.{expire, timer_handler}

abbrev pub pin_of : Powerport → Bool
pin_of p = getpin p.config.port p.board

-- a plain relay, with no alarm set
pub record IsPlain (p : Powerport) : Type 0 where
  pub plain : has p bistable_relais ≡ false
  pub no_wake : has p weck_verzoegert_ein ≡ false
  pub no_sleep : has p weck_auto_aus ≡ false

module _ (meanwhile : Powerport → Powerport) where
  -- n calls of the timer handler, one second apart
  unfoldable pub seconds : ℕ → Powerport → Powerport
  seconds zero p = p
  seconds (suc n) p = seconds n (timer_handler meanwhile p)

  count :
      (p : Powerport) (n : ℕ)
      → p.count_down_timer ≡ suc (suc n)
      → n < 65535
      → timer_handler meanwhile p ≡ record p { count_down_timer = suc n }
  unfolding timer_handler
  count p n c b = ground arith

  expires :
      (p : Powerport)
      → IsPlain p
      → p.count_down_timer ≡ 1
      → (pin_of (timer_handler meanwhile p) ≡ (
          if has p verzoegert_ein
          then true
          else if has p auto_aus || has p nachlauf
          then false
          else pin_of p))
        × ((timer_handler meanwhile p).count_down_timer ≡ 0)
  unfolding timer_handler expire
  expires p i c = ground arith

  -- The timer counts down and changes nothing else until it has reached 1.
  counts_down :
      (m k : ℕ) (p : Powerport)
      → p.count_down_timer ≡ suc (m + k)
      → m + k < 65535
      → seconds m p ≡ record p { count_down_timer = suc k }
  unfolding seconds
  counts_down zero k p c b = ground arith
  counts_down (suc m) k p c b =
      let here = count p (m + k) (omega arith) (omega arith) in
      rw here (counts_down m k (record p { count_down_timer = suc (m + k) }) refl (omega arith))

  seconds-suc : (n : ℕ) (p : Powerport) → seconds (suc n) p ≡ timer_handler meanwhile (seconds n p)
  unfolding seconds
  seconds-suc zero p = refl
  seconds-suc (suc n) p = seconds-suc n (timer_handler meanwhile p)

  -- what the pin is once the timer has run out
  abbrev pub final_pin : Powerport → Bool
  final_pin p =
      if has p verzoegert_ein
      then true
      else if has p auto_aus || has p nachlauf
      then false
      else pin_of p

  ends :
      (n : ℕ) (p : Powerport)
      → IsPlain p
      → p.count_down_timer ≡ suc n
      → n < 65535
      → (pin_of (seconds (suc n) p) ≡ final_pin p) × ((seconds (suc n) p).count_down_timer ≡ 0)
  ends n p i c b =
      let last = record p { count_down_timer = 1 } in
      let before : seconds n p ≡ last = counts_down n 0 p (omega arith) (omega arith) in
      rw (seconds-suc n p) (
        rw before (
          expires last (record { plain = i.plain; no_wake = i.no_wake; no_sleep = i.no_sleep })
            refl))

  -- A power port with a plain relay and no alarm, with m + k + 1 seconds on its timer and no frame
  -- meanwhile: after m seconds the pin is as it was; after m + k + 1 the timer is 0 and the pin is on
  -- with VERZOEGERT_EIN, else off with AUTO_AUS or NACHLAUF, else as it was.
  pub timer_expires :
      (m k : ℕ) (p : Powerport)
      → IsPlain p
      → p.count_down_timer ≡ suc (m + k)
      → m + k < 65535
      → (pin_of (seconds m p) ≡ pin_of p)
        × (pin_of (seconds (suc (m + k)) p) ≡ final_pin p)
        × ((seconds (suc (m + k)) p).count_down_timer ≡ 0)
  timer_expires m k p i c b =
      let (pin, timer) = ends (m + k) p i c b in (rw (counts_down m k p c b), pin, timer)

  -- An edge on a power port with a plain relay: a rising one switches the pin on at once unless
  -- VERZOEGERT_EIN (without AUTO_AUS) delays it, a falling one switches it off at once unless NACHLAUF
  -- delays it; the timer is loaded from the delay exactly where the edge is delayed or limited.
  pub set_or_timer_pin :
      (p : Powerport)
      → has p bistable_relais ≡ false
      → let up = set_or_timer meanwhile p steigende in
        let down = set_or_timer meanwhile p fallende in
        let delayed = not (has p auto_aus) && has p verzoegert_ein in
        let timed = has p auto_aus || has p verzoegert_ein in
        (pin_of up ≡ (if delayed then pin_of p else true))
        × (up.count_down_timer ≡ (if timed then delay_of p.config.gruppe3 else 0))
        × (pin_of down ≡ (if has p nachlauf then pin_of p else false))
        × (down.count_down_timer ≡ (if has p nachlauf then delay_of p.config.gruppe3 else 0))
  unfolding set_or_timer
  set_or_timer_pin p b = ground arith
