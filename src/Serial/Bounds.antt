-- ===== src/Serial/Bounds.antt =====
-- The adapter's buffer index, and a daemon that has lost half a value.
use hcan.Prelude.{
  ℕ, ◌≤◌, ◌<◌, ◌≡◌, Bool, true, false, arith, refl, ap, ◌∙◌, Option, none, some, List, [], ◌∷◌,
  ◌++◌, ◌||◌, length, length-set, All, leb, Option-cases, inl, inr,
}
use hcan.Serial.Hex.{send_values, high_char, low_char}
use hcan.Serial.Digits.{high_char_plain, low_char_plain}
use hcan.Serial.Frames.{IsByte, bytes, bytes-IsByte}
use hcan.Serial.Interface as Adapter
use hcan.Serial.Interface.{Message, Interface, frame_chars}
use hcan.Serial.Daemon.{
  Daemon, read_serial, receive, handle_serial_command, handle_value, take_frame,
}

-- the index lies in the buffer, or the adapter waits for its reset
pub record InBounds (p : Interface) : Type 0 where
  pub size : length p.obuffer ≡ 64
  pub index : (p.halted || leb p.oindex 63) ≡ true

length-command :
    (c : ℕ) (p : Interface) → length (Adapter.handle_serial_command c p).obuffer ≡ length p.obuffer
unfolding Adapter.handle_serial_command Adapter.send_frame
length-command c p = ground arith

length-value :
    (c : ℕ) (o : Option ℕ) (p : Interface)
    → length (Adapter.handle_value c o p).obuffer ≡ length p.obuffer
unfolding Adapter.handle_value
length-value c none p = refl
length-value c (some first) p = length-set p.obuffer p.oindex _

input-InBounds : (c : ℕ) (p : Interface) → InBounds p → InBounds (Adapter.handle_serial_input c p)
unfolding Adapter.handle_serial_input
input-InBounds c p b = ground (arith, length-command c p, length-value c p.first_bits_char p)

receive-InBounds : (cs : List ℕ) (p : Interface) → InBounds p → InBounds (Adapter.receive cs p)
unfolding Adapter.receive
receive-InBounds [] p b = b
receive-InBounds (c ∷ cs) p b =
    receive-InBounds cs (Adapter.handle_serial_input c p) (input-InBounds c p b)

-- Whatever characters arrive, an adapter that still runs has its index inside its buffer of 64 bytes, so
-- that no write is out of bounds.
pub adapter_bounds :
    (cs : List ℕ) (p : Interface)
    → InBounds p
    → (Adapter.receive cs p).halted ≡ false
    → ((Adapter.receive cs p).oindex < 64) × (length (Adapter.receive cs p).obuffer ≡ 64)
adapter_bounds cs p b h = let b' = receive-InBounds cs p b in (ground arith, b'.size)

abbrev pub is_some : Option ℕ → Bool
is_some none = false
is_some (some c) = true

-- half a value is left over
pub record IsHalf (p : Daemon) : Type 0 where
  pub half : is_some p.first_bits_char ≡ true
  pub idle : p.reset_flag ≡ false

abbrev at : Daemon → ℕ → Daemon
at p c = record p { first_bits_char = some c; reset_flag = false }

pair :
    (b c : ℕ) (p : Daemon)
    → b < 256
    → read_serial (low_char b) (read_serial (high_char b) (at p c))
      ≡ at (read_serial (high_char b) (at p c)) (low_char b)
unfolding read_serial handle_value
pair b c p h = rw (high_char_plain b h, low_char_plain b h) refl

-- After half a value, the values of a frame leave half a value.
values :
    (bs rest : List ℕ) (c : ℕ) (p : Daemon)
    → All IsByte bs
    → (d : ℕ) × (q : Daemon) × (receive (send_values bs ++ rest) (at p c) ≡ receive rest (at q d))
unfolding receive send_values
values [] rest c p a = (c, p, refl)
values (b ∷ bs) rest c p (h, a) =
    let p' = read_serial (high_char b) (at p c) in
    let (d, q, same) = values bs rest (low_char b) p' a in
    (d, q, ap (λ r. receive (send_values bs ++ rest) r) (pair b c p h) ∙ same)

take_frame-IsHalf : (c : ℕ) (p : Daemon) → IsHalf (take_frame (at p c))
unfolding take_frame
take_frame-IsHalf c p = ground arith

end-IsHalf : (c : ℕ) (p : Daemon) → IsHalf (read_serial 70 (at p c))
unfolding read_serial handle_serial_command
end-IsHalf c p = take_frame-IsHalf c p

begin : (p : Daemon) → IsHalf p → (c : ℕ) × (read_serial 67 p ≡ at (record p { iindex = 0 }) c)
unfolding read_serial handle_serial_command
begin p i = elim (Option-cases p.first_bits_char) [
  | inl none_left ↦ absurd (ground arith)
  | inr (c, e) ↦ (c, rw (i.idle, e) refl)
]

frame-IsHalf :
    (m : Message) (p : Daemon)
    → length m.content ≤ 8
    → All IsByte m.content
    → IsHalf p
    → IsHalf (receive (frame_chars m) p)
unfolding frame_chars receive
frame-IsHalf m p s a i =
    let (c, first) = begin p i in
    let (d, q, same) =
      values (bytes m) (70 ∷ []) c (record p { iindex = 0 }) (bytes-IsByte m s a) in
    let whole : receive (frame_chars m) p ≡ read_serial 70 (at q d) =
      ap (λ r. receive (send_values (bytes m) ++ 70 ∷ []) r) first ∙ same in
    rw whole (end-IsHalf d q)

unfoldable pub receive_frames : List Message → Daemon → Daemon
receive_frames [] p = p
receive_frames (m ∷ ms) p = receive_frames ms (receive (frame_chars m) p)

-- a frame of at most eight bytes
abbrev pub IsFrame : Message → Type 0
IsFrame m = (length m.content ≤ 8) × All IsByte m.content

-- A daemon with half a value left over still has one after any number of complete frames: the beginning
-- of a frame does not bring it in step again.
pub stays_out_of_step :
    (ms : List Message) (p : Daemon)
    → All IsFrame ms
    → IsHalf p
    → is_some (receive_frames ms p).first_bits_char ≡ true
unfolding receive_frames
stays_out_of_step [] p a i = i.half
stays_out_of_step (m ∷ ms) p ((s, b), a) i =
    stays_out_of_step ms (receive (frame_chars m) p) a (frame-IsHalf m p s b i)
