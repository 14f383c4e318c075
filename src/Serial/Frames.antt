-- ===== src/Serial/Frames.antt =====
-- The buffer that holds the bytes of a frame (both programs of the serial line).
use hcan.Prelude.{
  ℕ, suc, ◌+◌, ◌^◌, ◌≤◌, ◌<◌, ◌≡◌, arith, ap, ◌∙◌, List, ◌∷◌, ◌++◌, length, get_or, All,
}
use hcan.Serial.Hex.{bytes_of, id_of, copy}
use hcan.Serial.Writes.{write_all, get-write_all, copy_lem}
use hcan.Serial.Interface.{Message}

abbrev pub IsByte : ℕ → Type 0
IsByte b = b < 256

abbrev pub bytes : Message → List ℕ
bytes m = bytes_of m.extended ++ length m.content ∷ m.content

pub bytes-IsByte :
    (m : Message) → length m.content ≤ 8 → All IsByte m.content → All IsByte (bytes m)
bytes-IsByte m s a = (omega arith, (omega arith, (omega arith, (omega arith, (omega arith, a)))))

-- a buffer after the bytes of a frame
abbrev pub framed : List ℕ → Message → List ℕ
framed buffer m = write_all buffer 0 (bytes m)

from_zero : (j : ℕ) → j ≡ 0 + j
from_zero j = omega arith

skip : (j : ℕ) (m : Message) → get_or (bytes m) (5 + j) 0 ≡ get_or m.content j 0
skip j m =
    let five : 5 + j ≡ suc (suc (suc (suc (suc j)))) = omega arith in
    ap (λ k. get_or (bytes m) k 0) five

module _ (buffer : List ℕ) (m : Message) (l : length buffer ≡ 64) (s : length m.content ≤ 8) where
  framed_byte :
      (j : ℕ) → j < 5 + length m.content → get_or (framed buffer m) j 0 ≡ get_or (bytes m) j 0
  framed_byte j h =
      ap (λ k. get_or (framed buffer m) k 0) (from_zero j)
      ∙ get-write_all buffer 0 j (bytes m) (omega arith) (omega arith)

  pub framed_size : get_or (framed buffer m) 4 0 ≡ length m.content
  framed_size = framed_byte 4 (omega arith)

  pub framed_id : m.extended < 2 ^ 32 → id_of (framed buffer m) ≡ m.extended
  framed_id i =
      rw
        (
          framed_byte 0 (omega arith),
          framed_byte 1 (omega arith),
          framed_byte 2 (omega arith),
          framed_byte 3 (omega arith),
        )
        (omega arith)

  pub framed_content : copy (length m.content) 5 (framed buffer m) ≡ m.content
  framed_content =
      copy_lem 5 (framed buffer m) m.content (λ j h. framed_byte (5 + j) (omega arith) ∙ skip j m)
