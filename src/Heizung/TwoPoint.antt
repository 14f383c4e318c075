-- ===== src/Heizung/TwoPoint.antt =====
-- The two-point control of a heating circuit (heizung.c) as a switch with hysteresis.
use hcan.Prelude.{
  ℕ, ◌*◌, ◌/◌, ◌%◌, ◌≤◌, ◌<◌, ◌≡◌, Bool, true, false, arith, refl, List, [], ◌∷◌, if◌then◌else◌,
}
use hcan.Prelude.Int.{pos, ◌+ℤ◌, ◌-ℤ◌, ltb_ℤ, leb_ℤ}
use mathlib.Core.Path.{subst}
use native.Mathlib.Nat.{mul-div_cancel_left}
use hcan.Heizung.State.{Heizung, is_off, signed_16, set_pwm, get_pwm, update_heizstop}
use hcan.Heizung.Control.{set_pwm_by_temp}

-- A switch that goes off above `soll + width` and on below `soll - width`, for temperatures as 16-bit
-- patterns.
unfoldable pub hysteresis : ℕ → ℕ → Bool → ℕ → Bool
unfolding ◌+ℤ◌ ◌-ℤ◌
hysteresis soll width true ist = leb_ℤ (signed_16 ist) (signed_16 soll +ℤ pos width)
hysteresis soll width false ist = ltb_ℤ (signed_16 ist) (signed_16 soll -ℤ pos width)

-- the circuit is fully on, or fully off, and is neither stopped nor in mode OFF
pub record Switched (p : Heizung) (heats : Bool) : Type 0 where
  pub wanted : is_off p.mode ≡ false
  pub runs : p.reed_heiz_stop_counter ≡ 0
  pub periode : 0 < p.config.pwm_periode
  pub small : p.config.pwm_periode ≤ 255
  pub end : p.pwm_end ≡ p.config.pwm_periode
  pub width : p.pwm_width ≡ (if heats then p.config.pwm_periode else 0)

full : (e : ℕ) → 0 < e → e * 100 / e % 256 ≡ 100
full e h = rw (mul-div_cancel_left 100 h) refl

get_pwm-Switched : (p : Heizung) (b : Bool) → Switched p b → get_pwm p ≡ (if b then 100 else 0)
unfolding get_pwm
get_pwm-Switched p true s = rw (s.wanted, s.width, s.end) (full p.config.pwm_periode s.periode)
get_pwm-Switched p false s = rw (s.wanted, s.width) ground arith

step-Switched :
    (p : Heizung) (b : Bool) (soll ist : ℕ)
    → Switched p b
    → Switched (set_pwm_by_temp p soll ist) (hysteresis soll p.config.hysterese b ist)
unfolding set_pwm_by_temp set_pwm hysteresis ◌+ℤ◌ ◌-ℤ◌
step-Switched p true soll ist s = let now = get_pwm-Switched p true s in ground arith
step-Switched p false soll ist s = let now = get_pwm-Switched p false s in ground arith

step-config : (p : Heizung) (soll ist : ℕ) → (set_pwm_by_temp p soll ist).config ≡ p.config
unfolding set_pwm_by_temp set_pwm update_heizstop
step-config p soll ist = ground arith

-- the control, and the switch, at each of some measured temperatures
unfoldable pub follow : ℕ → List ℕ → Heizung → Heizung
follow soll [] p = p
follow soll (t ∷ ts) p = follow soll ts (set_pwm_by_temp p soll t)

unfoldable pub switch : ℕ → ℕ → List ℕ → Bool → Bool
switch soll width [] b = b
switch soll width (t ∷ ts) b = switch soll width ts (hysteresis soll width b t)

follow-Switched :
    (soll : ℕ) (ts : List ℕ) (p : Heizung) (b : Bool)
    → Switched p b
    → Switched (follow soll ts p) (switch soll p.config.hysterese ts b)
unfolding follow switch
follow-Switched soll [] p b s = s
follow-Switched soll (t ∷ ts) p b s =
    let q = set_pwm_by_temp p soll t in
    let next =
      follow-Switched soll ts q (hysteresis soll p.config.hysterese b t)
        (step-Switched p b soll t s) in
    subst
      (λ c.
        Switched (follow soll ts q)
          (switch soll c.hysterese ts (hysteresis soll p.config.hysterese b t)))
      (step-config p soll t) next

-- A circuit that is fully on or off, neither stopped nor in mode OFF, with a period of 1 to 255 seconds:
-- over any measured temperatures the two-point control gives the rate of the switch with hysteresis, 100
-- percent or 0.
pub two_point_refines :
    (soll : ℕ) (ts : List ℕ) (p : Heizung) (b : Bool)
    → Switched p b
    → get_pwm (follow soll ts p) ≡ (if switch soll p.config.hysterese ts b then 100 else 0)
two_point_refines soll ts p b s =
    get_pwm-Switched (follow soll ts p) (switch soll p.config.hysterese ts b)
      (follow-Switched soll ts p b s)
