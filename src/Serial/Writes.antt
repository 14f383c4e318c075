-- ===== src/Serial/Writes.antt =====
-- What a buffer holds after bytes were written to it (both programs of the serial line).
use hcan.Prelude.{
  ℕ, zero, suc, ◌+◌, ◌≤◌, ◌<◌, ◌≡◌, ◌≢◌, arith, refl, ap, ◌∙◌, List, [], ◌∷◌, length, get_or, set,
  length-set,
}
use hcan.Serial.Hex.{copy}

-- The entries of `ys` written to `xs` from the index i on.
unfoldable pub write_all : List ℕ → ℕ → List ℕ → List ℕ
write_all xs i [] = xs
write_all xs i (y ∷ ys) = write_all (set xs i y) (i + 1) ys

get-set_same : (xs : List ℕ) (i v : ℕ) → i < length xs → get_or (set xs i v) i 0 ≡ v
get-set_same [] i v h = ground arith
get-set_same (x ∷ xs) zero v h = refl
get-set_same (x ∷ xs) (suc i) v h = get-set_same xs i v (omega arith)

get-set_other : (xs : List ℕ) (i j v : ℕ) → j ≢ i → get_or (set xs i v) j 0 ≡ get_or xs j 0
get-set_other [] i j v h = refl
get-set_other (x ∷ xs) zero zero v h = ground arith
get-set_other (x ∷ xs) zero (suc j) v h = refl
get-set_other (x ∷ xs) (suc i) zero v h = refl
get-set_other (x ∷ xs) (suc i) (suc j) v h = get-set_other xs i j v (ground arith)

get-write_all_below :
    (xs : List ℕ) (i j : ℕ) (ys : List ℕ) → j < i → get_or (write_all xs i ys) j 0 ≡ get_or xs j 0
unfolding write_all
get-write_all_below xs i j [] h = refl
get-write_all_below xs i j (y ∷ ys) h =
    get-write_all_below (set xs i y) (i + 1) j ys (omega arith)
    ∙ get-set_other xs i j y (ground arith)

pub length-write_all : (xs : List ℕ) (i : ℕ) (ys : List ℕ) → length (write_all xs i ys) ≡ length xs
unfolding write_all
length-write_all xs i [] = refl
length-write_all xs i (y ∷ ys) = length-write_all (set xs i y) (i + 1) ys ∙ length-set xs i y

pub get-write_all :
    (xs : List ℕ) (i j : ℕ) (ys : List ℕ)
    → i + length ys ≤ length xs
    → j < length ys
    → get_or (write_all xs i ys) (i + j) 0 ≡ get_or ys j 0
unfolding write_all
get-write_all xs i j [] l h = ground arith
get-write_all xs i zero (y ∷ ys) l h =
    let here : i + 0 ≡ i = omega arith in
    rw here (
      get-write_all_below (set xs i y) (i + 1) i ys (omega arith)
      ∙ get-set_same xs i y (omega arith))
get-write_all xs i (suc j) (y ∷ ys) l h =
    let next : i + suc j ≡ i + 1 + j = omega arith in
    let same = length-set xs i y in
    rw next (get-write_all (set xs i y) (i + 1) j ys (omega arith) (omega arith))

start : (i : ℕ) → i ≡ i + 0
start i = omega arith

move : (i j : ℕ) → i + 1 + j ≡ i + suc j
move i j = omega arith

-- A copy gives back what the buffer holds.
pub copy_lem :
    (i : ℕ) (xs ys : List ℕ)
    → ((j : ℕ) → j < length ys → get_or xs (i + j) 0 ≡ get_or ys j 0)
    → copy (length ys) i xs ≡ ys
unfolding copy
copy_lem i xs [] h = refl
copy_lem i xs (y ∷ ys) h =
    let first : get_or xs i 0 ≡ y = ap (λ k. get_or xs k 0) (start i) ∙ h 0 (omega arith) in
    rw first (
      ap (λ zs. y ∷ zs)
        (copy_lem (i + 1) xs ys
          (λ j l. ap (λ k. get_or xs k 0) (move i j) ∙ h (suc j) (omega arith))))
