-- ===== src/Usv/Extrema.antt =====
-- The voltage statistics of usvstatemachine.c, against the extrema of the list of readings.
use hcan.Prelude.{
  ℕ, zero, suc, ◌≤◌, ◌<◌, ◌≡◌, arith, refl, ◌∙◌, ap, sym, List, [], ◌∷◌, map, ltb, if◌then◌else◌,
  length, get_or, All,
}
use hcan.Usv.State.{Usv, raise, lower, update_stats, reset_stats}

-- the greatest entry, at least 0, and the least entry, at most 1023
abbrev max : ℕ → ℕ → ℕ
max a b = if ltb a b then b else a

abbrev min : ℕ → ℕ → ℕ
min a b = if ltb b a then b else a

unfoldable pub greatest : List ℕ → ℕ
greatest [] = 0
greatest (x ∷ xs) = max x (greatest xs)

unfoldable pub least : List ℕ → ℕ
least [] = 1023
least (x ∷ xs) = min x (least xs)

get-raise :
    (ms us : List ℕ) (i : ℕ)
    → length us ≡ length ms
    → get_or (raise ms us) i 0 ≡ max (get_or ms i 0) (get_or us i 0)
unfolding raise
get-raise [] [] i h = refl
get-raise [] (u ∷ us) i h = ground arith
get-raise (m ∷ ms) [] i h = ground arith
get-raise (m ∷ ms) (u ∷ us) zero h = refl
get-raise (m ∷ ms) (u ∷ us) (suc i) h = get-raise ms us i (omega arith)

get-lower :
    (ms us : List ℕ) (i : ℕ)
    → length us ≡ length ms
    → get_or (lower ms us) i 0 ≡ min (get_or ms i 0) (get_or us i 0)
unfolding lower
get-lower [] [] i h = refl
get-lower [] (u ∷ us) i h = ground arith
get-lower (m ∷ ms) [] i h = ground arith
get-lower (m ∷ ms) (u ∷ us) zero h = refl
get-lower (m ∷ ms) (u ∷ us) (suc i) h = get-lower ms us i (omega arith)

length-raise : (ms us : List ℕ) → length (raise ms us) ≡ length ms
unfolding raise
length-raise [] us = refl
length-raise (m ∷ ms) [] = refl
length-raise (m ∷ ms) (u ∷ us) = ap suc (length-raise ms us)

length-lower : (ms us : List ℕ) → length (lower ms us) ≡ length ms
unfolding lower
length-lower [] us = refl
length-lower (m ∷ ms) [] = refl
length-lower (m ∷ ms) (u ∷ us) = ap suc (length-lower ms us)

-- the statistics after several passes over the channels
unfoldable pub observe : List (List ℕ) → Usv → Usv
observe [] u = u
observe (us ∷ rest) u = observe rest (update_stats u us)

abbrev pub of_channel : ℕ → List (List ℕ) → List ℕ
of_channel i rs = map (λ us. get_or us i 0) rs

max_step : (a b g : ℕ) → max (max a b) g ≡ max a (max b g)
max_step a b g = ground arith

min_step : (a b g : ℕ) → min (min a b) g ≡ min a (min b g)
min_step a b g = ground arith

observe-max :
    (rs : List (List ℕ)) (u : Usv) (i : ℕ)
    → length u.u_max ≡ 5
    → All (λ us. length us ≡ 5) rs
    → get_or (observe rs u).u_max i 0 ≡ max (get_or u.u_max i 0) (greatest (of_channel i rs))
unfolding observe update_stats greatest
observe-max [] u i l a = ground arith
observe-max (us ∷ rs) u i l (a, more) =
    let rest = observe-max rs (update_stats u us) i (length-raise u.u_max us ∙ l) more in
    rest
    ∙ rw (get-raise u.u_max us i (a ∙ sym l))
        (max_step (get_or u.u_max i 0) (get_or us i 0) (greatest (of_channel i rs)))

observe-min :
    (rs : List (List ℕ)) (u : Usv) (i : ℕ)
    → i < 5
    → length u.u_min ≡ 5
    → All (λ us. length us ≡ 5) rs
    → get_or u.u_min i 0 ≤ 1023
    → get_or (observe rs u).u_min i 0 ≡ min (get_or u.u_min i 0) (least (of_channel i rs))
unfolding observe update_stats least
observe-min [] u i k l a b = ground arith
observe-min (us ∷ rs) u i k l (a, more) b =
    let here = get-lower u.u_min us i (a ∙ sym l) in
    let rest =
      observe-min rs (update_stats u us) i k (length-lower u.u_min us ∙ l) more
        (rw here (ground arith)) in
    rest ∙ rw here (min_step (get_or u.u_min i 0) (get_or us i 0) (least (of_channel i rs)))

five : (a i : ℕ) → i < 5 → get_or (a ∷ a ∷ a ∷ a ∷ a ∷ []) i 0 ≡ a
five a zero h = refl
five a (suc zero) h = refl
five a (suc (suc zero)) h = refl
five a (suc (suc (suc zero))) h = refl
five a (suc (suc (suc (suc zero)))) h = refl
five a (suc (suc (suc (suc (suc i))))) h = ground arith

least_bound : (xs : List ℕ) → least xs ≤ 1023
unfolding least
least_bound [] = omega arith
least_bound (x ∷ xs) = let rest = least_bound xs in ground arith

-- After a reset, and any passes over the five channels, the two statistics of a channel are the least of
-- 1023 and its readings, and the greatest of 0 and its readings.
pub stats_extrema :
    (u : Usv) (rs : List (List ℕ)) (i : ℕ)
    → i < 5
    → All (λ us. length us ≡ 5) rs
    → let v = observe rs (reset_stats u) in
      (get_or v.u_min i 0 ≡ least (of_channel i rs))
      × (get_or v.u_max i 0 ≡ greatest (of_channel i rs))
unfolding reset_stats
stats_extrema u rs i k a =
    let v = reset_stats u in
    let lowest : get_or v.u_min i 0 ≡ 1023 = five 1023 i k in
    let highest : get_or v.u_max i 0 ≡ 0 = five 0 i k in
    let bound = least_bound (of_channel i rs) in
    (
      observe-min rs v i k refl a (omega arith) ∙ rw lowest (ground arith),
      observe-max rs v i refl a ∙ rw highest (ground arith),
    )
