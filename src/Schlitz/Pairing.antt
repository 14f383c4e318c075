-- ===== src/Schlitz/Pairing.antt =====
-- What the replies of the two contacts do (rolladenSchlitzpos.c).
use hcan.Prelude.{
  ap, sym, ℕ, zero, suc, ◌≤◌, ◌≡◌, ◌≢◌, Bool, true, arith, refl, ◌||◌, not, ◌==◌, replicate, ◌∙◌,
}
use hcan.Board.{Frame, byte}
use hcan.Schlitz.State.{
  Schlitz, position_replay, state_replay, timer_handler, is_reed, move, on_state_replay,
  can_callback,
}
use hcan.Schlitz.Query.{tick, run}

-- the replies of the shutter and of two contacts, in this order
unfoldable pub answers : Frame → Frame → Frame → Schlitz → Schlitz
answers position f g p = can_callback (can_callback (can_callback p position) f) g

pub record IsPosition (p : Schlitz) (f : Frame) : Type 0 where
  pub kind : byte f 1 ≡ position_replay
  pub shutter : p.config.rolladen ≡ byte f 2

pub record IsState (p : Schlitz) (f : Frame) : Type 0 where
  pub kind : byte f 1 ≡ state_replay
  pub contact : is_reed p f ≡ true

-- the contact is open
abbrev pub is_auf : Frame → Bool
is_auf f = not (byte f 3 == 0)

-- the device with the position of a reply
abbrev pub at_position : Frame → Schlitz → Schlitz
at_position f p = record p { rolladen_istposition = byte f 3 }

module _ (p : Schlitz) (f : Frame) where
  position_step : IsPosition p f → can_callback p f ≡ at_position f p
  unfolding can_callback
  position_step h = ground arith

  first_reply :
      p.config.reed1 ≢ 255
      → p.state_1st_reedkontakt ≡ 255
      → IsState p f
      → can_callback p f ≡ record p { state_1st_reedkontakt = byte f 3 }
  unfolding can_callback on_state_replay
  first_reply two e h = ground arith

  second_reply :
      p.config.reed1 ≢ 255
      → p.state_1st_reedkontakt ≢ 255
      → IsState p f
      → can_callback p f ≡ record (move (is_auf f || not (p.state_1st_reedkontakt == 0)) p) {
        state_1st_reedkontakt = 255;
      }
  unfolding can_callback on_state_replay
  second_reply two e h = ground arith

-- moving the shutter changes the board only
moved_by :
    (b : Bool) (p : Schlitz) (s : ℕ)
    → record (move b (record p { state_1st_reedkontakt = s })) { state_1st_reedkontakt = 255 }
      ≡ move b (record p { state_1st_reedkontakt = 255 })
unfolding move
moved_by b p s = ground arith

-- With two contacts and no reply left over, the replies of both move the shutter once, by the position of
-- its own reply: to the gap if it is shut and a contact is open, shut if it stands in the gap and both are
-- closed. No reply is left over.
pub replies_decide :
    (p : Schlitz) (position f g : Frame)
    → p.config.reed1 ≢ 255
    → p.state_1st_reedkontakt ≡ 255
    → IsPosition p position
    → IsState p f
    → byte f 3 ≢ 255
    → IsState p g
    → answers position f g p ≡ move (is_auf g || is_auf f) (at_position position p)
unfolding answers
replies_decide p position f g two e a b ne c =
    rw
      (
        position_step p position a,
        first_reply (at_position position p) f two e
            (record { kind = b.kind; contact = b.contact }),
        second_reply (record (at_position position p) { state_1st_reedkontakt = byte f 3 }) g two ne
            (record { kind = c.kind; contact = c.contact }),
        moved_by (is_auf g || is_auf f) (at_position position p) (byte f 3),
      )
      (ap
        (λ s.
          move (is_auf g || is_auf f)
            (record (at_position position p) { state_1st_reedkontakt = s }))
        (sym e))

ticks_same :
    (n : ℕ) (p : Schlitz)
    → ((run (replicate n tick) p).config ≡ p.config)
      × ((run (replicate n tick) p).state_1st_reedkontakt ≡ p.state_1st_reedkontakt)
unfolding run timer_handler
ticks_same zero p = (refl, refl)
ticks_same (suc n) p = ground (arith, ticks_same n (timer_handler p))

move_config : (b : Bool) (p : Schlitz) → (move b p).config ≡ p.config
unfolding move
move_config b p = ground arith

module _ (p q : Schlitz) (same : q.config ≡ p.config) where
  carried : (f : Frame) → IsState p f → IsState q f
  carried f h = record { kind = h.kind; contact = rw same h.contact }

  carried-IsPosition : (f : Frame) → IsPosition p f → IsPosition q f
  carried-IsPosition f h = record { kind = h.kind; shutter = rw same h.shutter }

  carried_two : p.config.reed1 ≢ 255 → q.config.reed1 ≢ 255
  carried_two two = rw same two

-- a reply that is left over stands for the first one
left_over_counts :
    (p : Schlitz) (position f g : Frame)
    → p.config.reed1 ≢ 255
    → p.state_1st_reedkontakt ≢ 255
    → IsPosition p position
    → IsState p f
    → IsState p g
    → (answers position f g p).board
      ≡ (move (is_auf f || not (p.state_1st_reedkontakt == 0)) (at_position position p)).board
unfolding answers
left_over_counts p position f g two ne a b c =
    let b1 = is_auf f || not (p.state_1st_reedkontakt == 0) in
    let q : Schlitz = record (move b1 (at_position position p)) { state_1st_reedkontakt = 255 } in
    let same = move_config b1 (at_position position p) in
    rw
      (
        position_step p position a,
        second_reply (at_position position p) f two ne
            (carried p (at_position position p) refl f b),
        first_reply q g (carried_two p q same two) refl (carried p q same g c),
      )
      refl

keeps_gap :
    (b : Bool) (q : Schlitz) (position : Frame)
    → q.state_1st_reedkontakt ≢ 0
    → 15 ≤ byte position 3
    → (move (b || not (q.state_1st_reedkontakt == 0)) (at_position position q)).board ≡ q.board
unfolding move
keeps_gap b q position ne le = ground arith

-- A device with two contacts and no reply left over gets the reply of one open contact only; the other's is
-- lost. After any calls of the timer handler the shutter replies that it stands at 15 or above, as it does
-- in the gap, and both contacts reply: no frame is sent then, also if both replies say closed.
pub lost_reply_keeps_gap :
    (n : ℕ) (p : Schlitz) (w position f g : Frame)
    → p.config.reed1 ≢ 255
    → p.state_1st_reedkontakt ≡ 255
    → IsState p w
    → byte w 3 ≢ 0
    → byte w 3 ≢ 255
    → IsPosition p position
    → 15 ≤ byte position 3
    → IsState p f
    → IsState p g
    → let q = run (replicate n tick) (can_callback p w) in (answers position f g q).board ≡ q.board
lost_reply_keeps_gap n p w position f g two e h some ne a le b c =
    let (config, state) = ticks_same n (can_callback p w) in
    let heard = first_reply p w two e h in
    let same = config ∙ ap (λ (s : Schlitz). s.config) heard in
    let left_over = state ∙ ap (λ (s : Schlitz). s.state_1st_reedkontakt) heard in
    let q = run (replicate n tick) (can_callback p w) in
    left_over_counts q position f g (carried_two p q same two) (rw left_over ne)
      (carried-IsPosition p q same position a) (carried p q same f b) (carried p q same g c)
    ∙ keeps_gap (is_auf f) q position (rw left_over some) le
