-- ===== src/Serial/ToHost.antt =====
-- A frame on its way from the bus through the adapter to the daemon.
use hcan.Prelude.{
  ℕ, suc, ◌+◌, ◌%◌, ◌^◌, ◌≤◌, ◌<◌, ◌≡◌, true, false, arith, refl, ap, ◌∙◌, none, List, [], ◌∷◌,
  ◌++◌, length, set, All, ◌==◌,
}
use hcan.Serial.Hex.{high_char, low_char, send_values}
use hcan.Serial.Digits.{high_char_plain, low_char_plain, convert_hexstr2int_lem}
use hcan.Serial.Writes.{write_all, length-write_all}
use hcan.Serial.Interface.{Message, frame_chars}
use hcan.Serial.Frames.{IsByte, bytes, bytes-IsByte, framed, framed_size, framed_id, framed_content}
use hcan.Serial.Daemon.{
  Daemon, handle_value, handle_serial_command, read_serial, receive, take_frame, or_first,
}

-- the state of the daemon between two values
abbrev at : Daemon → List ℕ → ℕ → Daemon
at p buffer i = record p {
  reset_flag = false;
  first_bits_char = none;
  ibuffer = buffer;
  iindex = i;
}

one_value :
    (p : Daemon) (buffer : List ℕ) (i b : ℕ)
    → b < 256
    → i < 63
    → read_serial (low_char b) (read_serial (high_char b) (at p buffer i))
      ≡ at p (set buffer i b) (i + 1)
unfolding read_serial handle_value
one_value p buffer i b h l =
    let small : (i + 1) % 256 ≡ i + 1 = omega arith in
    rw (high_char_plain b h, low_char_plain b h, convert_hexstr2int_lem b h, small) refl

values :
    (p : Daemon) (buffer : List ℕ) (i : ℕ) (bs rest : List ℕ)
    → All IsByte bs
    → i + length bs ≤ 63
    → receive (send_values bs ++ rest) (at p buffer i)
      ≡ receive rest (at p (write_all buffer i bs) (i + length bs))
unfolding receive send_values write_all
values p buffer i [] rest a l = let e : i + 0 ≡ i = omega arith in rw e refl
values p buffer i (b ∷ bs) rest (h, a) l =
    let e : i + suc (length bs) ≡ i + 1 + length bs = omega arith in
    ap (λ q. receive (send_values bs ++ rest) q) (one_value p buffer i b h (omega arith))
    ∙ rw e (values p (set buffer i b) (i + 1) bs rest a (omega arith))

taken :
    (p : Daemon) (m : Message)
    → m.extended < 2 ^ 32
    → length m.content ≤ 8
    → length p.ibuffer ≡ 64
    → take_frame (at p (framed p.ibuffer m) (5 + length m.content))
      ≡ record (at p (framed p.ibuffer m) (5 + length m.content)) {
        to_hcand = or_first p.to_hcand m;
        packet_recvd = p.packet_recvd + 1;
      }
unfolding take_frame
taken p m i s l =
    let test : (length m.content + 5 == 5 + length m.content) ≡ true = ground arith in
    rw
      (
        framed_size p.ibuffer m l s,
        test,
        framed_id p.ibuffer m l s i,
        framed_content p.ibuffer m l s,
      )
      refl

begin :
    (p : Daemon)
    → p.reset_flag ≡ false
    → p.first_bits_char ≡ none
    → read_serial 67 p ≡ at p p.ibuffer 0
unfolding read_serial handle_serial_command
begin p h n = rw (h, n) refl

finish :
    (p : Daemon) (buffer : List ℕ) (i : ℕ)
    → read_serial 70 (at p buffer i) ≡ take_frame (at p buffer i)
unfolding read_serial handle_serial_command
finish p buffer i = refl

through :
    (p : Daemon) (m : Message)
    → p.reset_flag ≡ false
    → p.first_bits_char ≡ none
    → length p.ibuffer ≡ 64
    → m.extended < 2 ^ 32
    → length m.content ≤ 8
    → All IsByte m.content
    → receive (frame_chars m) p ≡ record (at p (framed p.ibuffer m) (5 + length m.content)) {
      to_hcand = or_first p.to_hcand m;
      packet_recvd = p.packet_recvd + 1;
    }
unfolding frame_chars receive
through p m h n l i s a =
    let body = values p p.ibuffer 0 (bytes m) (70 ∷ []) (bytes-IsByte m s a) (omega arith) in
    let size : 0 + length (bytes m) ≡ 5 + length m.content = omega arith in
    ap (λ q. receive (send_values (bytes m) ++ 70 ∷ []) q) (begin p h n)
    ∙ body
    ∙ ap (λ k. read_serial 70 (at p (framed p.ibuffer m) k)) size
    ∙ finish p (framed p.ibuffer m) (5 + length m.content)
    ∙ taken p m i s l

-- A frame with an identifier of 32 bits and at most eight bytes, written by the adapter: a daemon in
-- step, with its buffer of 64 bytes, takes exactly this frame for hcand where none waits, counts it,
-- asks for no reset, and is in step for the next.
pub to_host :
    (p : Daemon) (m : Message)
    → p.reset_flag ≡ false
    → p.first_bits_char ≡ none
    → length p.ibuffer ≡ 64
    → m.extended < 2 ^ 32
    → length m.content ≤ 8
    → All IsByte m.content
    → let q = receive (frame_chars m) p in
      (q.to_hcand ≡ or_first p.to_hcand m)
      × (q.packet_recvd ≡ p.packet_recvd + 1)
      × (q.written ≡ p.written)
      × (q.first_bits_char ≡ none)
      × (q.reset_flag ≡ false)
      × (length q.ibuffer ≡ 64)
to_host p m h n l i s a =
    rw (through p m h n l i s a)
      (refl, refl, refl, refl, refl, length-write_all p.ibuffer 0 (bytes m) ∙ l)
