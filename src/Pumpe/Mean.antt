-- ===== src/Pumpe/Mean.antt =====
-- zentralheizungspumpe.c: how the mean of the demand switches the pump.
use native.Mathlib.Nat.{le-div_iff_mul-le, div-lt_iff_lt-mul}
use mathlib.Core.Path.{subst}
use hcan.Prelude.{
  ℕ, suc, ◌+◌, ◌*◌, ◌/◌, ◌%◌, ◌<◌, ◌≡◌, ◌≢◌, List, [], ◌∷◌, ◌||◌, ◌&&◌, not, if◌then◌else◌, ◌==◌,
  ltb, leb, arith, refl, Bool-cases, inl, inr, ◌∙◌,
}
use hcan.Board.{Frame, byte}
use hcan.Pumpe.State.{
  Entry, Pumpe, sum_from, mean_of, mittlerer_waermebedarf, send_message, switch, can_callback,
  waermebedarf_speichern, waermebedarf_info, power_group_on, power_group_off,
}

-- the whole demand, and the number of heaters with one
unfoldable pub total : List Entry → ℕ
total [] = 0
total (e ∷ es) = e.waermebedarf + total es

unfoldable pub active : List Entry → ℕ
active [] = 0
active (e ∷ es) = let rest = active es in if ltb 0 e.waermebedarf then suc rest else rest

sum_from-total :
    (t i : ℕ) (es : List Entry)
    → t + total es < 65536
    → sum_from t i es ≡ (t + total es, i + active es)
unfolding sum_from total active
sum_from-total t i [] h = ground arith
sum_from-total t i (e ∷ es) h =
    ground (arith, sum_from-total ((t + e.waermebedarf) % 65536) (suc i) es, sum_from-total t i es)

sum_all : (es : List Entry) → total es < 65536 → sum_from 0 0 es ≡ (total es, active es)
sum_all es h = ground (arith, sum_from-total 0 0 es)

active_total : (es : List Entry) → (total es ≢ 0) → 0 < active es
unfolding total active
active_total [] h = ground arith
active_total (e ∷ es) h = ground (arith, active_total es)

-- what the pump gets, by the sum `t` and the number `n`
abbrev pub decide : ℕ → ℕ → Pumpe → Pumpe
decide t n p =
    if leb (10 * n) t && not (t == 0)
    then send_message power_group_on p
    else if ltb t (6 * n) || (t == 0)
    then send_message power_group_off p
    else p

leb-div : (k n t : ℕ) → 0 < n → leb k (t / n) ≡ leb (k * n) t
leb-div k n t pos_n = ground (
  arith,
  (le-div_iff_mul-le {k = n} {x = k} {y = t} pos_n).0,
  (le-div_iff_mul-le {k = n} {x = k} {y = t} pos_n).1,
)

div-leb : (k n t : ℕ) → 0 < n → leb (t / n) k ≡ ltb t (suc k * n)
div-leb k n t pos_n = ground (
  arith,
  (div-lt_iff_lt-mul {k = n} {x = t} {y = suc k} pos_n).0,
  (div-lt_iff_lt-mul {k = n} {x = t} {y = suc k} pos_n).1,
)

switch-mean_of :
    (t n : ℕ) (p : Pumpe) → t ≢ 0 → 0 < n → switch (mean_of (t, n)) p ≡ decide (t % 256) n p
unfolding switch mean_of
switch-mean_of t n p nz pos_n =
    ground (arith, leb-div 10 n (t % 256) pos_n, div-leb 5 n (t % 256) pos_n)

switch_zero : (n : ℕ) (p : Pumpe) → switch (mean_of (0, n)) p ≡ decide 0 n p
unfolding switch mean_of
switch_zero n p = ground arith

switch_by_low_byte :
    (t n : ℕ) (p : Pumpe) → (t ≢ 0 → 0 < n) → switch (mean_of (t, n)) p ≡ decide (t % 256) n p
switch_by_low_byte t n p some_left = elim (Bool-cases (t == 0)) [
  | inl none_left ↦
      subst (λ x. switch (mean_of (x, n)) p ≡ decide (x % 256) n p) (ground arith) (switch_zero n p)
  | inr nz ↦ switch-mean_of t n p (ground arith) (some_left (ground arith))
]

-- the table after a frame
abbrev pub table : Pumpe → Frame → List Entry
table p f = waermebedarf_speichern (byte f 2) (byte f 3) p.heizung

abbrev pub stored : Pumpe → Frame → Pumpe
stored p f = record p { heizung = table p f }

can_callback_mean :
    (p : Pumpe) (f : Frame)
    → byte f 1 ≡ waermebedarf_info
    → total (table p f) < 65536
    → can_callback p f ≡ switch (mean_of (total (table p f), active (table p f))) (stored p f)
unfolding can_callback mittlerer_waermebedarf
can_callback_mean p f info h = rw (info, sum_all (table p f) h) refl

-- When a heater reports its demand and the sum of the table then is at most 65535, the lower eight bits
-- of this sum decide: the pump is switched on if they are not 0 and are at least 10 for each heater
-- with a demand, off if they are 0 or less than 6 for each heater with a demand, and left alone
-- otherwise.
pub pump_by_low_byte :
    (p : Pumpe) (f : Frame)
    → byte f 1 ≡ waermebedarf_info
    → total (table p f) < 65536
    → can_callback p f ≡ decide (total (table p f) % 256) (active (table p f)) (stored p f)
pump_by_low_byte p f info bounded =
    can_callback_mean p f info bounded
    ∙ switch_by_low_byte (total (table p f)) (active (table p f)) (stored p f)
        (active_total (table p f))
