-- ===== src/Canix/Wire.antt =====
-- A frame from the sending board over the wire to the receiving one.
use mathlib.Core.Bool.{false≢true}
use hcan.Prelude.{
  ap, sym, ℕ, zero, suc, ◌/◌, ◌%◌, ◌^◌, ◌≤◌, ◌<◌, ◌≡◌, true, false, some, List, [], ◌∷◌, set,
  get_or, length, arith, refl,
}
use hcan.Board.{Frame, Prio}
use hcan.Canix.Ident.{extid, extid_fields}
use hcan.Canix.Filters.{Entry}
use hcan.Canix.Transmit.{
  id_regs, regs_id, TxBuffer, Controller, no_buffer, filled, sendable, any_sendable, tx_index,
  send_message, send_in, data_of, frame_send, RxBuffer, read_rx, frame_of,
}

-- What a receiving controller puts into its buffer for a message that was sent: the bits of the identifier
-- stand at the same places; bits 2 to 4 of SIDL are flags of its own.
pub record OnWire (t : TxBuffer) (r : RxBuffer) : Type 0 where
  pub same_sidh : r.id.sidh ≡ t.id.sidh
  pub same_low : r.id.sidl % 4 ≡ t.id.sidl % 4
  pub same_high : r.id.sidl / 32 ≡ t.id.sidl / 32
  pub same_eid8 : r.id.eid8 ≡ t.id.eid8
  pub same_eid0 : r.id.eid0 ≡ t.id.eid0
  pub same_dlc : r.dlc ≡ t.dlc
  pub same_bytes : r.bytes ≡ t.bytes

id_arrives :
    (id : ℕ) (bytes : List ℕ) (r : RxBuffer)
    → id < 2 ^ 29
    → OnWire (filled id bytes) r
    → regs_id r.id ≡ id
unfolding id_regs regs_id
id_arrives id bytes r lt w = omega arith

data_of_all : (n : ℕ) (bs : List ℕ) → length bs ≡ n → data_of n bs ≡ bs
unfolding data_of
data_of_all zero [] e = refl
data_of_all zero (b ∷ bs) e = ground arith
data_of_all (suc n) [] e = ground arith
data_of_all (suc n) (b ∷ bs) e = ap (λ rest. b ∷ rest) (data_of_all n bs (omega arith))

-- a buffer that is free is one of the list
set_free :
    (ts : List TxBuffer) (i : ℕ) (t : TxBuffer)
    → (get_or ts i no_buffer).txreq ≡ false
    → get_or (set ts i t) i no_buffer ≡ t
set_free [] i t h = absurd (false≢true (sym h))
set_free (s ∷ ts) zero t h = refl
set_free (s ∷ ts) (suc i) t h = set_free ts i t h

tx_index-free :
    (c : Controller) (i : ℕ)
    → tx_index c ≡ some i
    → ((get_or c.buffers i no_buffer).txreq ≡ false) × (any_sendable c ≡ true)
unfolding tx_index any_sendable sendable
tx_index-free c i h = ground arith

sent_buffer :
    (id : ℕ) (bs : List ℕ) (c : Controller) (i : ℕ)
    → tx_index c ≡ some i
    → get_or (send_message id bs c).buffers i no_buffer ≡ filled id bs
unfolding send_message send_in
sent_buffer id bs c i h = rw h (set_free c.buffers i (filled id bs) (tx_index-free c i h).0)

-- the message that is read from a buffer with a frame
message_arrives :
    (id : ℕ) (bs : List ℕ) (r : RxBuffer)
    → id < 2 ^ 29
    → length bs ≤ 8
    → OnWire (filled id bs) r
    → read_rx r ≡ record { extended = id; bytes = bs }
unfolding read_rx
message_arrives id bs r lt few w =
    rw
      (
        id_arrives id bs r lt w,
        w.same_dlc,
        w.same_bytes,
        data_of_all (length bs % 16) bs (omega arith),
      )
      refl

frame_back :
    (f : Frame) (prio : Prio)
    → f.src < 2 ^ 10
    → f.dst < 2 ^ 10
    → f.proto < 2 ^ 3
    → length f.bytes ≡ f.size
    → frame_of (record { extended = extid f prio; bytes = f.bytes }) ≡ f
unfolding frame_of
frame_back f prio a b c e =
    let (src, dst, proto, range) = extid_fields f prio a b c in rw (src, dst, proto, e) refl

frame_buffer :
    (es : List Entry) (f : Frame) (prio : Prio) (c : Controller) (i : ℕ)
    → length f.bytes ≡ f.size
    → tx_index c ≡ some i
    → get_or (frame_send es f prio c).0.buffers i no_buffer ≡ filled (extid f prio) f.bytes
unfolding frame_send
frame_buffer es f prio c i e free =
    rw ((tx_index-free c i free).1, data_of_all f.size f.bytes e)
      (sent_buffer (extid f prio) f.bytes c i free)

-- A frame with 10-bit addresses, a 3-bit protocol and at most eight bytes is sent by a board that has a
-- transmit buffer free: it stands in the first free one, and a board whose controller has got it from
-- there delivers exactly this frame to its callbacks.
pub frame_arrives :
    (es : List Entry) (f : Frame) (prio : Prio) (c : Controller) (i : ℕ) (r : RxBuffer)
    → f.src < 2 ^ 10
    → f.dst < 2 ^ 10
    → f.proto < 2 ^ 3
    → length f.bytes ≡ f.size
    → f.size ≤ 8
    → tx_index c ≡ some i
    → OnWire (get_or (frame_send es f prio c).0.buffers i no_buffer) r
    → frame_of (read_rx r) ≡ f
frame_arrives es f prio c i r a b p e few free w =
    rw
      (message_arrives (extid f prio) f.bytes r (extid_fields f prio a b p).3 (omega arith)
        (rw (frame_buffer es f prio c i e free) at w))
      (frame_back f prio a b p e)
