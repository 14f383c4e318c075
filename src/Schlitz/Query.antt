-- ===== src/Schlitz/Query.antt =====
-- When the gap's device asks the shutter and the contacts (rolladenSchlitzpos.c).
use hcan.Prelude.{
  ◌∙◌, ltb, ℕ, suc, ◌+◌, ◌-◌, ◌≡◌, Bool, true, false, List, [], ◌∷◌, arith, if◌then◌else◌, ◌==◌,
  ◌&&◌,
}
use hcan.Board.{Frame, byte}
use hcan.Schlitz.State.{
  Schlitz, state_change, send_queries, timer_handler, is_reed, can_callback, on_state_replay, move,
}

-- what happens to the device
pub data Event : Type 0 where
  tick : Event
  frame : Frame → Event

unfoldable pub run : List Event → Schlitz → Schlitz
run [] p = p
run (tick ∷ es) p = run es (timer_handler p)
run (frame f ∷ es) p = run es (can_callback p f)

abbrev pub ticks : List Event → ℕ
ticks [] = 0
ticks (tick ∷ es) = suc (ticks es)
ticks (frame f ∷ es) = ticks es

-- a contact of the device has changed
abbrev pub changes : Schlitz → Frame → Bool
changes p f = (byte f 1 == state_change) && is_reed p f

unfoldable pub no_change : Schlitz → List Event → Bool
no_change p [] = true
no_change p (tick ∷ es) = no_change p es
no_change p (frame f ∷ es) = let rest = no_change p es in if changes p f then false else rest

-- the calls that are left, after n of them
abbrev pub left : ℕ → ℕ
left n = if ltb n 20 then 20 - n else 255

module _ (p q : Schlitz) (same : q.config ≡ p.config) where
  tick_left :
      (n : ℕ)
      → q.rolladen_schlitz_job ≡ left n
      → ((timer_handler q).rolladen_schlitz_job ≡ left (suc n))
        × ((timer_handler q).config ≡ p.config)
        × ((timer_handler q).board ≡ (if n == 19 then send_queries p.config q.board else q.board))
  unfolding timer_handler
  tick_left n e = ground arith

  frame_left :
      (f : Frame)
      → changes p f ≡ false
      → ((can_callback q f).rolladen_schlitz_job ≡ q.rolladen_schlitz_job)
        × ((can_callback q f).config ≡ p.config)
  unfolding can_callback on_state_replay move
  frame_left f e = ground arith

run_left :
    (n : ℕ) (es : List Event) (p q : Schlitz)
    → q.config ≡ p.config
    → no_change p es ≡ true
    → q.rolladen_schlitz_job ≡ left n
    → ((run es q).rolladen_schlitz_job ≡ left (n + ticks es)) × ((run es q).config ≡ p.config)
unfolding run no_change
run_left n [] p q same still e = ground arith
run_left n (tick ∷ es) p q same still e =
    let (job, same2, asked) = tick_left p q same n e in
    ground (arith, run_left (suc n) es p (timer_handler q) same2 still job)
run_left n (frame f ∷ es) p q same still e =
    let (job, same2) = frame_left p q same f (ground arith) in
    run_left n es p (can_callback q f) same2 (ground arith) (job ∙ e)

changed_left :
    (p : Schlitz) (f : Frame)
    → changes p f ≡ true
    → ((can_callback p f).rolladen_schlitz_job ≡ 20) × ((can_callback p f).config ≡ p.config)
unfolding can_callback
changed_left p f e = ground arith

-- After a contact of the device has changed, and while none changes again, whatever other frames come: the
-- device asks the shutter for its position and its contacts for their state in the 20th call of the timer
-- handler, and in no call before it or after it.
pub asks_in_two_seconds :
    (p : Schlitz) (f : Frame) (es : List Event)
    → changes p f ≡ true
    → no_change p es ≡ true
    → let q = run es (can_callback p f) in
      (timer_handler q).board ≡ (if ticks es == 19 then send_queries p.config q.board else q.board)
asks_in_two_seconds p f es ch still =
    let (job, same) = changed_left p f ch in
    let (job2, same2) = run_left 0 es p (can_callback p f) same still job in
    (tick_left p (run es (can_callback p f)) same2 (ticks es) (ground arith)).2
