-- ===== src/Helligkeit/Mean.antt =====
-- The frame of the brightness sensor carries the mean of the eight readings before it.
use hcan.Prelude.{
  ℕ, zero, suc, ◌+◌, ◌*◌, ◌/◌, ◌≤◌, ◌<◌, ◌≡◌, List, [], ◌∷◌, ◌++◌, arith, refl, length, ◌∙◌, ap,
  length-set, get_or,
}
use hcan.Board.{send, low}
use hcan.Helligkeit.State.{
  Filter, Sensor, Adc, add_to_float_avg, get_output_value, sum, get_adc_value_inverted, measure,
  send_info, timer_handler, info_frame, cycle,
}

-- values added to the ring, the last one first
unfoldable adds : List ℕ → Filter → Filter
adds [] f = f
adds (v ∷ vs) f = add_to_float_avg v (adds vs f)

pub record IsRing (f : Filter) : Type 0 where
  pub full : length f.a_data ≡ 8
  pub inside : f.index_next_value < 8

add-IsRing : (v : ℕ) (f : Filter) → IsRing f → IsRing (add_to_float_avg v f)
unfolding add_to_float_avg
add-IsRing v f r = ground (arith, length-set f.a_data f.index_next_value v)

-- eight values overwrite the ring, wherever it begins
adds_around :
    (a b c d e g h k r s t u v w x y i : ℕ)
    → i < 8
    → sum
        (adds
          (r ∷ s ∷ t ∷ u ∷ v ∷ w ∷ x ∷ y ∷ [])
          (record { a_data = a ∷ b ∷ c ∷ d ∷ e ∷ g ∷ h ∷ k ∷ []; index_next_value = i })).a_data
      ≡ r + s + t + u + v + w + x + y
unfolding adds add_to_float_avg sum
adds_around a b c d e g h k r s t u v w x y zero lt = omega arith
adds_around a b c d e g h k r s t u v w x y (suc zero) lt = omega arith
adds_around a b c d e g h k r s t u v w x y (suc (suc zero)) lt = omega arith
adds_around a b c d e g h k r s t u v w x y (suc (suc (suc zero))) lt = omega arith
adds_around a b c d e g h k r s t u v w x y (suc (suc (suc (suc zero)))) lt = omega arith
adds_around a b c d e g h k r s t u v w x y (suc (suc (suc (suc (suc zero))))) lt = omega arith
adds_around a b c d e g h k r s t u v w x y (suc (suc (suc (suc (suc (suc zero)))))) lt =
    omega arith
adds_around a b c d e g h k r s t u v w x y (suc (suc (suc (suc (suc (suc (suc zero))))))) lt =
    omega arith
adds_around a b c d e g h k r s t u v w x y (suc (suc (suc (suc (suc (suc (suc (suc i)))))))) lt =
    omega arith

abbrev behind : List ℕ → List ℕ
behind [] = []
behind (x ∷ xs) = xs

-- the first n entries, 0 behind the end
entries : ℕ → List ℕ → List ℕ
entries zero xs = []
entries (suc n) xs = get_or xs 0 0 ∷ entries n (behind xs)

entries_all : (n : ℕ) (xs : List ℕ) → length xs ≡ n → xs ≡ entries n xs
unfolding entries
entries_all zero [] e = refl
entries_all zero (x ∷ xs) e = ground arith
entries_all (suc n) [] e = ground arith
entries_all (suc n) (x ∷ xs) e = ap (λ ys. x ∷ ys) (entries_all n xs (omega arith))

adds-entries :
    (i : ℕ) (vs us xs ys : List ℕ)
    → i < 8
    → vs ≡ entries 8 us
    → xs ≡ entries 8 ys
    → sum (adds vs (record { a_data = xs; index_next_value = i })).a_data ≡ sum vs
unfolding entries sum
adds-entries i vs us xs ys lt e1 e2 =
    rw (e1, e2) (adds_around _ _ _ _ _ _ _ _ _ _ _ _ _ _ _ _ i lt ∙ omega arith)

adds_full : (vs : List ℕ) (f : Filter) → IsRing f → length vs ≡ 8 → sum (adds vs f).a_data ≡ sum vs
adds_full vs f r e =
    adds-entries f.index_next_value vs vs f.a_data f.a_data r.inside (entries_all 8 vs e)
      (entries_all 8 f.a_data r.full)

-- seconds with the measurements of each, the last one first
unfoldable pub run : List Adc → Sensor → Sensor
run [] p = p
run (a ∷ ms) p = timer_handler a (run ms p)

abbrev readings : List Adc → List ℕ
readings [] = []
readings (a ∷ ms) = get_adc_value_inverted a ∷ readings ms

-- n more seconds before the next frame
pub record Waits (n : ℕ) (p : Sensor) : Type 0 where
  pub left : p.secs_until_next_send ≡ n
  pub ring : IsRing p.filter_brightness

record Unsent (p q : Sensor) : Type 0 where
  same_board : q.board ≡ p.board
  same_config : q.config ≡ p.config

measure_one :
    (n : ℕ) (a : Adc) (p : Sensor)
    → Waits (suc n) p
    → Waits n (timer_handler a p) × Unsent p (timer_handler a p)
unfolding timer_handler measure
measure_one n a p w =
    ground (arith, add-IsRing (get_adc_value_inverted a) p.filter_brightness w.ring)

run_older :
    (n : ℕ) (ms : List Adc) (p : Sensor)
    → Waits (length ms + n) p
    → Waits n (run ms p) × Unsent p (run ms p)
unfolding run
run_older n [] p w = (ground arith, record { same_board = refl; same_config = refl })
run_older n (a ∷ ms) p w =
    let (waits, unsent) = run_older (suc n) ms p (ground arith) in
    let (waits2, unsent2) = measure_one n a (run ms p) waits in
    (
      waits2,
      record {
        same_board = unsent2.same_board ∙ unsent.same_board;
        same_config = unsent2.same_config ∙ unsent.same_config;
      },
    )

run_newest :
    (n : ℕ) (ms : List Adc) (p : Sensor)
    → Waits (length ms + n) p
    → length ms + n ≤ 8
    → (run ms p).filter_brightness ≡ adds (readings ms) p.filter_brightness
unfolding run timer_handler measure adds
run_newest n [] p w le = refl
run_newest n (a ∷ ms) p w le =
    ground (arith, run_newest (suc n) ms p, (run_older (suc n) ms p (ground arith)).0)

run_after : (ms ns : List Adc) (p : Sensor) → run (ms ++ ns) p ≡ run ms (run ns p)
unfolding run
run_after [] ns p = refl
run_after (m ∷ ms) ns p = ap (timer_handler m) (run_after ms ns p)

reading_range : (m : Adc) → get_adc_value_inverted m ≤ 1023
unfolding get_adc_value_inverted
reading_range m = omega arith

readings_range : (ms : List Adc) → sum (readings ms) ≤ 1023 * length ms
unfolding sum
readings_range [] = omega arith
readings_range (m ∷ ms) = ground (arith, readings_range ms, reading_range m)

value_of_sum : (f : Filter) (n : ℕ) → sum f.a_data ≡ n → n ≤ 8184 → get_output_value f ≡ n / 8
unfolding get_output_value
value_of_sum f n e le = rw e (omega arith)

sends_now :
    (m : Adc) (p : Sensor)
    → Waits 0 p
    → ((timer_handler m p).board
        ≡ send (info_frame (get_output_value p.filter_brightness) p) low p.board)
      × Waits (cycle p) (timer_handler m p)
unfolding timer_handler send_info
sends_now m p w = ground arith

length-readings : (ms : List Adc) → length (readings ms) ≡ length ms
length-readings [] = refl
length-readings (m ∷ ms) = ap suc (length-readings ms)

newest_sum :
    (ms : List Adc) (p : Sensor)
    → length ms ≡ 8
    → Waits 8 p
    → sum (run ms p).filter_brightness.a_data ≡ sum (readings ms)
newest_sum ms p e w =
    rw (run_newest 0 ms p (rw e w) (omega arith))
      (adds_full (readings ms) p.filter_brightness w.ring (length-readings ms ∙ e))

-- The call that follows the last second sends the mean of the eight measurements before it (each the mean
-- of four, inverted), and no call before it sends; the next frame comes after the cycle. The sensor has at
-- least eight seconds left and a ring of eight values with its index inside.
pub sends_mean :
    (m : Adc) (ms older : List Adc) (p : Sensor)
    → length ms ≡ 8
    → Waits (length older + 8) p
    → let mean : ℕ = sum (readings ms) / 8 in
      ((run (ms ++ older) p).board ≡ p.board)
      × ((run (m ∷ ms ++ older) p).board ≡ send (info_frame mean p) low p.board)
      × Waits (cycle p) (run (m ∷ ms ++ older) p)
unfolding run
sends_mean m ms older p e w =
    let (before, quiet) = run_older 8 older p w in
    let (now, still) = run_older 0 ms (run older p) (rw e before) in
    let (sent, next) = sends_now m (run ms (run older p)) now in
    let same_board = still.same_board ∙ quiet.same_board in
    let same_config = still.same_config ∙ quiet.same_config in
    let value =
      value_of_sum (run ms (run older p)).filter_brightness (sum (readings ms))
        (newest_sum ms (run older p) e before) (ground (arith, readings_range ms)) in
    rw (run_after ms older p)
      (same_board, sent ∙ rw (value, same_board, same_config) refl, rw same_config at next)
