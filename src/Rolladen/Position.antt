-- ===== src/Rolladen/Position.antt =====
-- The position of a roller shutter (rolladen.c): its range, and what a definition of it reads back.
use native.Mathlib.Nat.{div-eq_of_eq-mul_left}
use hcan.Prelude.{ℕ, ◌+◌, ◌*◌, ◌/◌, ◌≤◌, ◌<◌, ◌≡◌, refl, ap, arith, ltb, if◌then◌else◌}
use hcan.Prelude.Int.{pos, ◌≤ℤ◌}
use hcan.Rolladen.State.{Rolladen, laufzeit_align, get_position, define_position}

-- A reported position is at most 100, whatever the way counted.
pub get_position-le : (p : Rolladen) → get_position p ≤ 100
unfolding get_position
get_position-le p = ground arith

-- The way after a halt lies between the two ends, and is the old one where that did.
pub laufzeit_align_range :
    (p : Rolladen)
    → (pos 0 ≤ℤ (laufzeit_align p).laufzeit)
      × ((laufzeit_align p).laufzeit ≤ℤ pos p.config.laufzeit)
      × (pos 0 ≤ℤ p.laufzeit → p.laufzeit ≤ℤ pos p.config.laufzeit → laufzeit_align p ≡ p)
unfolding laufzeit_align
laufzeit_align_range p = (ground arith, ground arith, λ l h. ground arith)

div_bounds : (a n l : ℕ) → 0 < l → n * l ≤ a → a ≤ (n + 1) * l → (n ≤ a / l) × (a / l ≤ n + 1)
div_bounds a n l p lo hi = (grind arith, grind arith)

abbrev cap_100 : ℕ → ℕ
cap_100 n = if ltb 100 n then 100 else n

get_position_at :
    (p : Rolladen) (d : ℕ)
    → p.laufzeit ≡ pos d
    → get_position p ≡ cap_100 (100 * d / p.config.laufzeit + 1)
unfolding get_position
get_position_at p d e = rw e (ground arith)

share_le : (n l : ℕ) → n ≤ 99 → (n + 1) * l / 100 ≤ l
share_le n l h = grind arith

define_position_at :
    (p : Rolladen) (n : ℕ)
    → n ≤ 99
    → (define_position p n).laufzeit ≡ pos ((n + 1) * p.config.laufzeit / 100)
unfolding define_position
define_position_at p n h = ground (arith, share_le n p.config.laufzeit h)

share_bounds :
    (n l : ℕ)
    → 100 ≤ l
    → (n * l ≤ 100 * ((n + 1) * l / 100)) × (100 * ((n + 1) * l / 100) ≤ (n + 1) * l)
share_bounds n l h = (grind arith, grind arith)

exact_share : (n k l : ℕ) → l ≡ k * 100 → 100 ≤ l → 100 * ((n + 1) * l / 100) / l ≡ n + 1
exact_share n k l e h =
    let scaled = ap (λ (t : ℕ). (n + 1) * t) e in
    let inner : (n + 1) * l / 100 ≡ (n + 1) * k =
      div-eq_of_eq-mul_left (omega arith) (omega (arith, scaled)) in
    rw inner (div-eq_of_eq-mul_left (omega arith) (omega (arith, scaled)))

define_position_config : (p : Rolladen) (n : ℕ) → (define_position p n).config ≡ p.config
unfolding define_position
define_position_config p n = refl

-- With a running time of at least 10 s, a position that is defined as n ≤ 98 percent reads back as
-- n + 1 or n + 2.
pub define_position_drift :
    (p : Rolladen) (n : ℕ)
    → 100 ≤ p.config.laufzeit
    → n ≤ 98
    → (n + 1 ≤ get_position (define_position p n)) × (get_position (define_position p n) ≤ n + 2)
define_position_drift p n long h =
    let l : ℕ = p.config.laufzeit in
    let d : ℕ = (n + 1) * l / 100 in
    let share = share_bounds n l long in
    let bounds = div_bounds (100 * d) n l (omega arith) share.0 share.1 in
    let at = get_position_at (define_position p n) d (define_position_at p n (omega arith)) in
    (
      rw at (ground (arith, bounds, define_position_config p n)),
      rw at (ground (arith, bounds, define_position_config p n)),
    )

-- With a running time of k * 10 s, k not 0, a position that is defined as n ≤ 98 percent reads back as
-- n + 2.
pub define_position_two_up :
    (p : Rolladen) (n k : ℕ)
    → p.config.laufzeit ≡ k * 100
    → 100 ≤ p.config.laufzeit
    → n ≤ 98
    → get_position (define_position p n) ≡ n + 2
define_position_two_up p n k e long h =
    let l : ℕ = p.config.laufzeit in
    let at =
      get_position_at (define_position p n) ((n + 1) * l / 100)
        (define_position_at p n (omega arith)) in
    rw at (ground (arith, define_position_config p n, exact_share n k l e long))
