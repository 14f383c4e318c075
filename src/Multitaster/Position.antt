-- ===== src/Multitaster/Position.antt =====
-- multitaster.c: the section of the potentiometer's scale that the search finds.
use native.Mathlib.Nat.{mul-le-mul_right}
use hcan.Prelude.{
  ℕ, zero, suc, ◌+◌, ◌*◌, ◌%◌, ◌^◌, ◌≤◌, ◌<◌, ◌≡◌, inl, inr, true, false, List, [], ◌∷◌, arith,
  refl, ◌==◌, leb, get_or, Bool-cases, ==_iff,
}
use hcan.Multitaster.State.{find_pos, divisions}

-- section k is k * scale + 1 to (k + 1) * scale
pub record InSection (k scale value : ℕ) : Type 0 where
  pub above : k * scale < value
  pub below : value ≤ (k + 1) * scale

-- a step of the search: it ends at the end of the section
step_hits :
    (k scale value : ℕ)
    → k < 9
    → scale ≤ 1023
    → InSection k scale value
    → leb value ((k + 1) * scale % 2 ^ 16) ≡ true
step_hits k scale value lt le h =
    ground (arith, mul-le-mul_right {m = k + 1} {n = 9} scale (omega arith))

step_misses :
    (i k scale value : ℕ)
    → i ≤ k
    → k < 9
    → scale ≤ 1023
    → InSection k scale value
    → leb value (i * scale % 2 ^ 16) ≡ false
step_misses i k scale value below lt le h = ground (
  arith,
  mul-le-mul_right {m = i} {n = k} scale below,
  mul-le-mul_right {m = k} {n = 9} scale (omega arith),
)

pub find_pos_section :
    (left i k scale value old : ℕ)
    → i ≤ k + 1
    → k + 1 < i + left
    → k < 9
    → scale ≤ 1023
    → InSection k scale value
    → find_pos left i scale value old ≡ k
unfolding find_pos
find_pos_section zero i k scale value old le enough lt s h = ground arith
find_pos_section (suc left) i k scale value old le enough lt s h = elim (Bool-cases (i == k + 1)) [
  | inl last ↦ rw ((==_iff i (k + 1)).0 last, step_hits k scale value lt s h) (omega arith)
  | inr before ↦
      rw (step_misses i k scale value (ground arith) lt s h)
        (find_pos_section left (i + 1) k scale value old (ground arith) (ground arith) lt s h)
]

pub find_pos_zero : (left scale old : ℕ) → find_pos (suc left) 0 scale 0 old ≡ 255
unfolding find_pos
find_pos_zero left scale old = ground arith

add_one : (n : ℕ) → n + 1 ≡ suc n
add_one n = omega arith

-- the group behind the last one that is configured is 255
pub group_behind : (gs : List ℕ) → get_or gs (divisions gs) 255 ≡ 255
unfolding divisions
group_behind [] = refl
group_behind (g ∷ gs) = elim (Bool-cases (g == 255)) [
  | inl none_left ↦ ground arith
  | inr used ↦ rw (used, add_one (divisions gs)) (group_behind gs)
]
