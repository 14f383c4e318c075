-- ===== src/Fenster/Timeout.antt =====
-- dunstabzugport.c without frames, and the states of the contacts, which nothing sets back.
use hcan.Prelude.{
  ℕ, zero, suc, ◌*◌, ◌≤◌, ◌≡◌, ◌≢◌, ◌⊎◌, inl, inr, true, ◌&&◌, ◌||◌, List, [], ◌∷◌, arith, refl,
  ◌==◌, ltb,
}
use hcan.Board.{Frame, byte}
use hcan.Fenster.Reedkontakt.{state_change, reedkontakt_offen}
use hcan.Fenster.Dunstabzug.{
  Dunstabzug, timer_handler, can_callback, on_offen, on_state_change, on_taster_down, taster_down,
}
use hcan.Fenster.Strecke.{is_on}

-- seconds without a frame
abbrev pub ticks : ℕ → Dunstabzug → Dunstabzug
ticks zero h = h
ticks (suc n) h = ticks n (timer_handler h)

ticks_stopped : (n : ℕ) (h : Dunstabzug) → h.counter ≡ 0 → is_on (ticks n h) ≡ is_on h
unfolding timer_handler
ticks_stopped zero h z = refl
ticks_stopped (suc n) h z = ground (arith, ticks_stopped n (timer_handler h))

ticks_on :
    (n : ℕ) (h : Dunstabzug) → h.counter ≢ 0 → is_on (ticks n h) ≡ ((is_on h) && ltb n h.counter)
unfolding timer_handler
ticks_on zero h nz = ground arith
ticks_on (suc n) h nz =
    ground (arith, ticks_on n (timer_handler h), ticks_stopped n (timer_handler h))

-- After the frame for a pressed button of the group freischalt_taster, and `n` seconds without a frame,
-- the socket is on as long as `n` is less than 60 times the configured minutes; it is on after any `n` if
-- these are 0.
pub taster_minutes :
    (h : Dunstabzug) (f : Frame) (n : ℕ)
    → h.config.freischalt_zeit ≤ 255
    → byte f 1 ≡ taster_down
    → byte f 2 ≡ h.config.freischalt_taster
    → is_on (ticks n (can_callback h f))
      ≡ ((h.config.freischalt_zeit == 0) || ltb n (60 * h.config.freischalt_zeit))
unfolding can_callback on_taster_down
taster_minutes h f n le down group =
    ground (arith, ticks_on n (can_callback h f), ticks_stopped n (can_callback h f))

-- what happens to the hood
pub data Event : Type 0 where
  tick : Event
  frame : Frame → Event

abbrev pub handle : Event → Dunstabzug → Dunstabzug
handle tick h = timer_handler h
handle (frame f) h = can_callback h f

abbrev pub run : List Event → Dunstabzug → Dunstabzug
run [] h = h
run (e ∷ es) h = run es (handle e h)

-- The contact of the second group has said once that it is open, and the configuration is `c`.
record Opened (h h' : Dunstabzug) : Type 0 where
  reed1 : h'.state_reed1 ≡ true
  config : h'.config ≡ h.config

timer_handler-Opened : (h h' : Dunstabzug) → Opened h h' → Opened h (timer_handler h')
unfolding timer_handler
timer_handler-Opened h h' o = record {
  reed1 = ground (arith, o.reed1);
  config = ground (arith, o.config);
}

can_callback-Opened : (h h' : Dunstabzug) (f : Frame) → Opened h h' → Opened h (can_callback h' f)
unfolding can_callback on_offen on_state_change on_taster_down
can_callback-Opened h h' f o = record {
  reed1 = ground (arith, o.reed1);
  config = ground (arith, o.config);
}

run-Opened : (es : List Event) (h h' : Dunstabzug) → Opened h h' → Opened h (run es h')
run-Opened [] h h' o = o
run-Opened (tick ∷ es) h h' o = run-Opened es h (timer_handler h') (timer_handler-Opened h h' o)
run-Opened (frame f ∷ es) h h' o =
    run-Opened es h (can_callback h' f) (can_callback-Opened h h' f o)

opens :
    (h : Dunstabzug) (f : Frame)
    → byte f 1 ≡ reedkontakt_offen
    → byte f 2 ≡ h.config.reed_gruppe1
    → h.config.reed_gruppe0 ≢ h.config.reed_gruppe1
    → Opened h (can_callback h f)
unfolding can_callback on_offen
opens h f kind group differ = record { reed1 = ground arith; config = ground arith }

-- Once the contact of the second group, which is not the first one, has reported that it is open, a frame
-- that the contact of the first group has closed changes nothing, whatever came in between: the closing
-- of the second one included.
pub closing_ignored :
    (h : Dunstabzug) (f1 f0 : Frame) (es : List Event)
    → h.config.reed_gruppe0 ≢ h.config.reed_gruppe1
    → byte f1 1 ≡ reedkontakt_offen
    → byte f1 2 ≡ h.config.reed_gruppe1
    → byte f0 1 ≡ state_change
    → byte f0 2 ≡ h.config.reed_gruppe0
    → byte f0 3 ≡ 0
    → can_callback (run es (can_callback h f1)) f0 ≡ run es (can_callback h f1)
unfolding can_callback on_state_change
closing_ignored h f1 f0 es differ kind1 group1 kind0 group0 shut = ground (arith, o.reed1, o.config)
  where
    o : Opened h (run es (can_callback h f1))
    o = run-Opened es h (can_callback h f1) (opens h f1 kind1 group1 differ)

-- After a frame that a contact of one of its groups is open, and `n` seconds without a frame, the
-- socket is on if `n` is less than 7 and off otherwise.
lost_frames :
    (h : Dunstabzug) (f : Frame) (n : ℕ)
    → byte f 1 ≡ reedkontakt_offen
    → (h.config.reed_gruppe0 ≡ byte f 2) ⊎ (h.config.reed_gruppe1 ≡ byte f 2)
    → is_on (ticks n (can_callback h f)) ≡ ltb n 7
unfolding can_callback on_offen
lost_frames h f n kind (inl group) = ground (arith, ticks_on n (can_callback h f))
lost_frames h f n kind (inr group) = ground (arith, ticks_on n (can_callback h f))
