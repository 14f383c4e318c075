-- ===== src/Tempsensor/Period.antt =====
-- How often a temperature sensor sends (tempsensor.c).
use hcan.Prelude.{
  ℕ, zero, suc, ◌+◌, ◌%◌, ◌≤◌, ◌≡◌, ◌≢◌, Bool, true, false, some, List, [], ◌∷◌, arith, refl,
  length, ltb, if◌then◌else◌, ◌∙◌, ap, ◌⊎◌, inl, inr, All, Option-cases,
}
use hcan.Board.{Frame, byte, send, low, multicast_info}
use hcan.Tempsensor.State.{
  Tempsensor, str2id, measured, start_measuring, timer_handler, temperature_frame, temperature_info,
  temperature_query, can_callback,
}

-- calls with the answers of the sensor, the first one first
unfoldable pub run : List ℕ → Tempsensor → Tempsensor
run [] p = p
run (r ∷ rs) p = run rs (timer_handler r p)

-- a sensor that measures, with the id of its configuration
pub record IsActive (p : Tempsensor) : Type 0 where
  pub modus : p.config.modus ≢ 0
  pub id : List ℕ
  pub has_id : str2id p.config.ow_id ≡ some id
  pub byte_interval : p.config.interval ≤ 255

-- the sensor `q` is at a counter and has sent nothing since `p`
record Waits (n : ℕ) (c : Bool) (p q : Tempsensor) : Type 0 where
  same_config : q.config ≡ p.config
  same_board : q.board ≡ p.board
  counter : q.timer_counter ≡ n
  converted : q.convert_sent ≡ c

module _ (p : Tempsensor) (a : IsActive p) where
  counts_down :
      (r n : ℕ) (c : Bool) (q : Tempsensor)
      → n ≢ 1
      → n ≤ 254
      → Waits (suc n) c p q
      → Waits n c p (timer_handler r q)
  unfolding timer_handler
  counts_down r n c q ne le w = ground arith

  wraps : (r : ℕ) (q : Tempsensor) → Waits 0 false p q → Waits 255 false p (timer_handler r q)
  unfolding timer_handler
  wraps r q w = ground arith

  its_id : (n : ℕ) (c : Bool) (q : Tempsensor) → Waits n c p q → str2id q.config.ow_id ≡ some a.id
  its_id n c q w = rw w.same_config a.has_id

  converts : (r : ℕ) (q : Tempsensor) → Waits 2 false p q → Waits 1 true p (timer_handler r q)
  unfolding timer_handler start_measuring
  converts r q w = ground (arith, its_id 2 false q w, a.modus)

  -- the call that sends
  sends :
      (r : ℕ) (q : Tempsensor)
      → Waits 0 true p q
      → ((timer_handler r q).board
          ≡ send
              (temperature_frame multicast_info temperature_info (record p { temperature = r }))
              low
              p.board)
        × ((timer_handler r q).timer_counter ≡ (p.config.interval + 255) % 256)
        × ((timer_handler r q).convert_sent ≡ false)
        × ((timer_handler r q).config ≡ p.config)
  unfolding timer_handler measured
  sends r q w = ground (arith, its_id 0 true q w)

  run_two : (r s : ℕ) (q : Tempsensor) → Waits 2 false p q → Waits 0 true p (run (r ∷ s ∷ []) q)
  unfolding run
  run_two r s q w =
      counts_down s 0 true (timer_handler r q) (omega arith) (omega arith) (converts r q w)

  run_down :
      (rs : List ℕ) (n : ℕ) (q : Tempsensor)
      → length rs ≡ n + 2
      → n ≤ 253
      → Waits (n + 2) false p q
      → Waits 0 true p (run rs q)
  unfolding run
  run_down [] n q e le w = ground arith
  run_down (r ∷ []) n q e le w = ground arith
  run_down (r ∷ s ∷ []) n q e le w = run_two r s q (ground arith)
  run_down (r ∷ s ∷ t ∷ rs) zero q e le w = ground arith
  run_down (r ∷ s ∷ t ∷ rs) (suc n) q e le w =
      run_down (s ∷ t ∷ rs) n (timer_handler r q) (omega arith) (omega arith)
        (counts_down r (n + 2) false q (omega arith) (omega arith) (ground arith))

  from_end :
      (rs : List ℕ) (q : Tempsensor)
      → length rs ≡ 256
      → Waits 0 false p q
      → Waits 0 true p (run rs q)
  unfolding run
  from_end [] q e w = ground arith
  from_end (r ∷ rs) q e w =
      run_down rs 253 (timer_handler r q) (omega arith) (omega arith) (wraps r q w)

  from_one :
      (rs : List ℕ) (q : Tempsensor)
      → length rs ≡ 257
      → Waits 1 false p q
      → Waits 0 true p (run rs q)
  unfolding run
  from_one [] q e w = ground arith
  from_one (r ∷ rs) q e w =
      from_end rs (timer_handler r q) (omega arith)
        (counts_down r 0 false q (omega arith) (omega arith) w)

  run_to_end :
      (i : ℕ) (rs : List ℕ)
      → i ≤ 255
      → length rs + 1 ≡ (if ltb i 3 then 256 + i else i)
      → Waits ((i + 255) % 256) false p p
      → Waits 0 true p (run rs p)
  run_to_end zero rs le e w = run_down rs 253 p (omega arith) (omega arith) w
  run_to_end (suc zero) rs le e w = from_end rs p (omega arith) w
  run_to_end (suc (suc zero)) rs le e w = from_one rs p (omega arith) w
  run_to_end (suc (suc (suc i))) rs le e w =
      run_down rs i p (ground arith) (omega arith) (ground arith)

-- A second passes, with the answer of the sensor, or a frame arrives.
pub data Event : Type 0 where
  second : ℕ → Event
  frame : Frame → Event

unfoldable pub step : Tempsensor → Event → Tempsensor
unfolding can_callback
step p (second r) = timer_handler r p
step p (frame f) = can_callback p f

unfoldable pub run_events : List Event → Tempsensor → Tempsensor
unfolding step
run_events [] p = p
run_events (e ∷ es) p = run_events es (step p e)

-- no query for the group
unfoldable pub NoQuery : ℕ → Event → Type 0
NoQuery group (second r) = Unit
NoQuery group (frame f) = (byte f 1 ≢ temperature_query) ⊎ (byte f 2 ≢ group)

-- the answers of the sensor
unfoldable pub answers : List Event → List ℕ
answers [] = []
answers (second r ∷ es) = r ∷ answers es
answers (frame f ∷ es) = answers es

timer_handler_config : (r : ℕ) (p : Tempsensor) → (timer_handler r p).config ≡ p.config
unfolding timer_handler start_measuring measured
timer_handler_config r p = elim (Option-cases (str2id p.config.ow_id)) [
  | inl no_id ↦ ground (arith, no_id)
  | inr (id, has_id) ↦ ground (arith, has_id)
]

no_answer :
    (p : Tempsensor) (f : Frame)
    → (byte f 1 ≢ temperature_query) ⊎ (byte f 2 ≢ p.config.gruppe)
    → can_callback p f ≡ p
unfolding can_callback
no_answer p f (inl other) = ground arith
no_answer p f (inr other) = ground arith

-- Frames that are no queries for the group leave the sensor alone.
run_events-run :
    (es : List Event) (p : Tempsensor)
    → All (NoQuery p.config.gruppe) es
    → run_events es p ≡ run (answers es) p
unfolding run_events step run answers NoQuery
run_events-run [] p none_asks = refl
run_events-run (second r ∷ es) p (one, none_asks) =
    run_events-run es (timer_handler r p) (rw (timer_handler_config r p) none_asks)
run_events-run (frame f ∷ es) p (one, none_asks) =
    ap (λ q. run_events es q) (no_answer p f one) ∙ run_events-run es p none_asks

-- the seconds from one frame to the next
abbrev pub period : ℕ → ℕ
period interval = if ltb interval 3 then 256 + interval else interval

-- A sensor that measures and has just sent, and that gets no query for its group meanwhile but any other
-- frames: the next frame comes in the call after `interval` seconds, or after 256 seconds more if the
-- interval is less than 3; it carries what the sensor answers in this call, no frame comes before it, and
-- the sensor then has just sent again.
pub sends_each_interval :
    (p : Tempsensor) (es : List Event) (r : ℕ)
    → IsActive p
    → p.timer_counter ≡ (p.config.interval + 255) % 256
    → p.convert_sent ≡ false
    → All (NoQuery p.config.gruppe) es
    → length (answers es) + 1 ≡ period p.config.interval
    → let q = timer_handler r (run_events es p) in
      ((run_events es p).board ≡ p.board)
      × (q.board
          ≡ send
              (temperature_frame multicast_info temperature_info (record p { temperature = r }))
              low
              p.board)
      × (q.timer_counter ≡ (q.config.interval + 255) % 256)
      × (q.convert_sent ≡ false)
sends_each_interval p es r a e c none_asks len =
    let w =
      run_to_end p a p.config.interval (answers es) a.byte_interval len
        (record { same_config = refl; same_board = refl; counter = e; converted = c }) in
    let (sent, counter, converted, config) = sends p a r (run (answers es) p) w in
    rw (run_events-run es p none_asks) (w.same_board, sent, counter ∙ rw config refl, converted)
