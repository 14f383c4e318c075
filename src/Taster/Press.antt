-- ===== src/Taster/Press.antt =====
-- taster.c: what one press of the button sends.
use hcan.Prelude.{
  ℕ, zero, suc, ◌+◌, ◌≤◌, ◌≡◌, Bool, true, false, List, [], ◌∷◌, ◌++◌, ◌||◌, ◌&&◌, not,
  if◌then◌else◌, ◌==◌, ltb, leb, arith, refl,
}
use hcan.Board.{Sent, srv_hes}
use hcan.Taster.State.{
  Taster, rolladen_zu, rolladen_auf, has, taster_down, taster_up, rolladen_position_set, release,
  report, count_up, time_of, timer_handler, hold, press,
}

-- the bytes of the frames that were sent, the newest first
unfoldable pub messages : List Sent → List (List ℕ)
messages [] = []
messages (s ∷ older) = s.frame.bytes ∷ messages older

-- the bytes of the frame that reports the press
abbrev pub down_message : Taster → List ℕ
down_message p =
    if has p rolladen_zu
    then srv_hes ∷ rolladen_position_set ∷ p.config.gruppe ∷ 200 ∷ []
    else if has p rolladen_auf
    then srv_hes ∷ rolladen_position_set ∷ p.config.gruppe ∷ 201 ∷ []
    else srv_hes ∷ taster_down ∷ p.config.gruppe ∷ p.config.port ∷ []

abbrev pub up_message : Taster → List ℕ
up_message p = srv_hes ∷ taster_up ∷ p.config.gruppe ∷ p.config.port ∷ []

report_config : (p : Taster) → (report p).config ≡ p.config
unfolding report
report_config p = ground arith

report_pressed : (p : Taster) → (report p).pressed ≡ p.pressed
unfolding report
report_pressed p = ground arith

hold_config : (n : ℕ) (p : Taster) → (hold n p).config ≡ p.config
unfolding hold timer_handler
hold_config zero p = refl
hold_config (suc n) p = ground (arith, hold_config n p, report_config (count_up (hold n p)))

hold_pressed :
    (n : ℕ) (p : Taster) → p.pressed ≡ 0 → (hold n p).pressed ≡ (if ltb n 255 then n else 255)
unfolding hold timer_handler
hold_pressed zero p z = ground arith
hold_pressed (suc n) p z =
    rw (report_pressed (count_up (hold n p)), hold_pressed n p z) (ground arith)

report_messages :
    (p : Taster)
    → messages (report p).board.sent ≡ (
        if p.pressed == time_of p
        then down_message p ∷ messages p.board.sent
        else messages p.board.sent)
unfolding report messages
report_messages p = ground arith

time_of_range : (p : Taster) → (1 ≤ time_of p) × (time_of p ≤ 254)
time_of_range p = ground arith

-- one more call sends the frame exactly when the time is reached
reported_once :
    (t n : ℕ) (d : List ℕ) (ms : List (List ℕ))
    → t ≤ 254
    → let sent = if leb t n then d ∷ ms else ms in
      (if (if ltb (if ltb n 255 then n else 255) 255
            then (if ltb n 255 then n else 255) + 1
            else (if ltb n 255 then n else 255))
          == t
        then d ∷ sent
        else sent)
      ≡ (if leb t (suc n) then d ∷ ms else ms)
reported_once t n d ms le = ground arith

hold_messages :
    (n : ℕ) (p : Taster)
    → p.pressed ≡ 0
    → messages (hold n p).board.sent ≡ (
        if leb (time_of p) n then down_message p ∷ messages p.board.sent else messages p.board.sent)
unfolding hold timer_handler
hold_messages zero p z = ground (arith, time_of_range p)
hold_messages (suc n) p z =
    rw
      (
        report_messages (count_up (hold n p)),
        hold_messages n p z,
        hold_pressed n p z,
        hold_config n p,
      )
      (reported_once (time_of p) n (down_message p) (messages p.board.sent) (time_of_range p).1)

release_messages :
    (p : Taster)
    → messages (release p).board.sent ≡ (
        if ltb 3 p.pressed && not (has p rolladen_zu || has p rolladen_auf)
        then up_message p ∷ messages p.board.sent
        else messages p.board.sent)
unfolding release messages
release_messages p = ground arith

released_quiet :
    (p : Taster) → messages (report (release p)).board.sent ≡ messages (release p).board.sent
unfolding release
released_quiet p = rw (report_messages (release p)) (ground (arith, time_of_range (release p)))

released_zero : (p : Taster) → (release p).pressed ≡ 0
unfolding release
released_zero p = refl

joined :
    (up down : Bool) (u d : List ℕ) (ms : List (List ℕ))
    → (if up then u ∷ (if down then d ∷ ms else ms) else (if down then d ∷ ms else ms))
      ≡ ((if up then u ∷ [] else []) ++ (if down then d ∷ [] else [])) ++ ms
joined true true u d ms = refl
joined true false u d ms = refl
joined false true u d ms = refl
joined false false u d ms = refl

capped : (n : ℕ) → ltb 3 (if ltb n 255 then n else 255) ≡ ltb 3 n
capped n = ground arith

-- the frames of a press of `n` times 10 ms, the newest first
unfoldable pub sent_by : ℕ → Taster → List (List ℕ)
sent_by n p =
    (if ltb 3 n && not (has p rolladen_zu || has p rolladen_auf) then up_message p ∷ [] else [])
    ++ (if leb (time_of p) n then down_message p ∷ [] else [])

-- A press of `n` times 10 ms, of a button that was not pressed before, sends the frame of the press
-- (TASTER_DOWN, or the position of a shutter) once if `n` is at least 3, or 100 with the feature
-- ENTPRELL_1S, and then TASTER_UP if `n` is greater than 3 and the button is not one for a shutter;
-- nothing else is sent, and the counter is 0 again.
pub press_sends :
    (n : ℕ) (p : Taster)
    → p.pressed ≡ 0
    → (messages (press n p).board.sent ≡ sent_by n p ++ messages p.board.sent)
      × ((press n p).pressed ≡ 0)
unfolding press timer_handler sent_by
press_sends n p z = (
  rw
      (
        released_quiet (hold n p),
        release_messages (hold n p),
        hold_messages n p z,
        hold_pressed n p z,
        hold_config n p,
        capped n,
      )
      (joined (ltb 3 n && not (has p rolladen_zu || has p rolladen_auf)) (leb (time_of p) n)
        (up_message p) (down_message p) (messages p.board.sent)),
  rw (report_pressed (release (hold n p))) (released_zero (hold n p)),
)
