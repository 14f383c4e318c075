-- ===== src/Serial/ToBus.antt =====
-- A frame on its way from the daemon through the adapter to the bus.
use hcan.Prelude.{
  ℕ, suc, ◌+◌, ◌%◌, ◌^◌, ◌≤◌, ◌<◌, ◌≡◌, true, false, arith, refl, ap, ◌∙◌, none, List, [], ◌∷◌,
  ◌++◌, length, set, All, ltb, ◌==◌,
}
use hcan.Serial.Hex.{high_char, low_char, send_values}
use hcan.Serial.Daemon.{frame_chars}
use hcan.Serial.Digits.{high_char-lt, high_char_plain, low_char_plain, convert_hexstr2int_lem}
use hcan.Serial.Writes.{write_all, length-write_all}
use hcan.Serial.Frames.{IsByte, bytes, bytes-IsByte, framed, framed_size, framed_id, framed_content}
use hcan.Serial.Interface.{
  Message, Interface, handle_value, handle_serial_command, handle_serial_input, receive, send_frame,
}

-- the state of the adapter between two values
abbrev at : Interface → List ℕ → ℕ → Interface
at p buffer i = record p { halted = false; first_bits_char = none; obuffer = buffer; oindex = i }

one_value :
    (p : Interface) (buffer : List ℕ) (i b : ℕ)
    → b < 256
    → i < 63
    → handle_serial_input (low_char b) (handle_serial_input (high_char b) (at p buffer i))
      ≡ at p (set buffer i b) (i + 1)
unfolding handle_serial_input handle_value
one_value p buffer i b h l =
    let inside : ltb 63 i ≡ false = ground arith in
    let after : ltb 63 (i + 1) ≡ false = ground arith in
    let small : (i + 1) % 256 ≡ i + 1 = omega arith in
    let ascii : (high_char b == 255) ≡ false = ground (arith, high_char-lt b h) in
    rw
      (
        high_char_plain b h,
        ascii,
        inside,
        low_char_plain b h,
        convert_hexstr2int_lem b h,
        small,
        after,
      )
      refl

values :
    (p : Interface) (buffer : List ℕ) (i : ℕ) (bs rest : List ℕ)
    → All IsByte bs
    → i + length bs ≤ 63
    → receive (send_values bs ++ rest) (at p buffer i)
      ≡ receive rest (at p (write_all buffer i bs) (i + length bs))
unfolding receive send_values write_all
values p buffer i [] rest a l = let e : i + 0 ≡ i = omega arith in rw e refl
values p buffer i (b ∷ bs) rest (h, a) l =
    let e : i + suc (length bs) ≡ i + 1 + length bs = omega arith in
    ap (λ q. receive (send_values bs ++ rest) q) (one_value p buffer i b h (omega arith))
    ∙ rw e (values p (set buffer i b) (i + 1) bs rest a (omega arith))

taken :
    (p : Interface) (m : Message)
    → m.extended < 2 ^ 32
    → length m.content ≤ 8
    → length p.obuffer ≡ 64
    → send_frame (at p (framed p.obuffer m) (5 + length m.content))
      ≡ record (at p (framed p.obuffer m) (5 + length m.content)) { sent = m ∷ p.sent }
unfolding send_frame
taken p m i s l =
    let test : (length m.content + 5 == 5 + length m.content) ≡ true = ground arith in
    rw
      (
        framed_size p.obuffer m l s,
        test,
        framed_id p.obuffer m l s i,
        framed_content p.obuffer m l s,
      )
      refl

begin : (p : Interface) → p.halted ≡ false → handle_serial_input 67 p ≡ at p p.obuffer 0
unfolding handle_serial_input handle_serial_command
begin p h = rw h refl

finish :
    (p : Interface) (buffer : List ℕ) (i : ℕ)
    → i ≤ 63
    → (send_frame (at p buffer i)).oindex ≡ i
    → handle_serial_input 70 (at p buffer i) ≡ send_frame (at p buffer i)
unfolding handle_serial_input handle_serial_command
finish p buffer i l e =
    let inside : ltb 63 (send_frame (at p buffer i)).oindex ≡ false = ground arith in rw inside refl

through :
    (p : Interface) (m : Message)
    → p.halted ≡ false
    → length p.obuffer ≡ 64
    → m.extended < 2 ^ 32
    → length m.content ≤ 8
    → All IsByte m.content
    → receive (frame_chars m) p
      ≡ record (at p (framed p.obuffer m) (5 + length m.content)) { sent = m ∷ p.sent }
unfolding frame_chars receive
through p m h l i s a =
    let body = values p p.obuffer 0 (bytes m) (70 ∷ []) (bytes-IsByte m s a) (omega arith) in
    let done = taken p m i s l in
    let last =
      finish p (framed p.obuffer m) (5 + length m.content) (omega arith)
        (ap (λ q. q.oindex) done) in
    let size : 0 + length (bytes m) ≡ 5 + length m.content = omega arith in
    ap (λ q. receive (send_values (bytes m) ++ 70 ∷ []) q) (begin p h)
    ∙ body
    ∙ ap (λ k. handle_serial_input 70 (at p (framed p.obuffer m) k)) size
    ∙ last
    ∙ done

-- A frame with an identifier of 32 bits and at most eight bytes, written by the daemon: an adapter with
-- its buffer of 64 bytes that is not waiting for its reset hands exactly this frame to the bus,
-- whatever it received before, and is ready for the next.
pub to_bus :
    (p : Interface) (m : Message)
    → p.halted ≡ false
    → length p.obuffer ≡ 64
    → m.extended < 2 ^ 32
    → length m.content ≤ 8
    → All IsByte m.content
    → let q = receive (frame_chars m) p in
      (q.sent ≡ m ∷ p.sent) × (q.halted ≡ false) × (length q.obuffer ≡ 64) × (q.usb ≡ p.usb)
to_bus p m h l i s a =
    rw (through p m h l i s a) (refl, refl, length-write_all p.obuffer 0 _ ∙ l, refl)
