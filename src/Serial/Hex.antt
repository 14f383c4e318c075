-- ===== src/Serial/Hex.antt =====
-- Bytes as two hexadecimal characters, in both programs of the serial line: hexchars, sendvalue and
-- send_char_to_HT, convert_hexstr2int. A `char` is its byte.
use Prim.Native.Nat.{bit_or}
use hcan.Prelude.{
  ℕ, zero, suc, ◌+◌, ◌-◌, ◌*◌, ◌/◌, ◌%◌, Bool, List, [], ◌∷◌, ◌&&◌, if◌then◌else◌, leb, get_or,
}

-- the characters A .. Z are commands
abbrev pub is_command : ℕ → Bool
is_command c = leb 65 c && leb c 90

abbrev pub hexchars : List ℕ
hexchars = 48 ∷ 49 ∷ 50 ∷ 51 ∷ 52 ∷ 53 ∷ 54 ∷ 55 ∷ 56 ∷ 57 ∷ 97 ∷ 98 ∷ 99 ∷ 100 ∷ 101 ∷ 102 ∷ []

unfoldable pub high_char : ℕ → ℕ
high_char c = get_or hexchars (c / 16 % 16) 0

unfoldable pub low_char : ℕ → ℕ
low_char c = get_or hexchars (c % 16) 0

-- sendvalue, or send_char_to_HT, of each byte
unfoldable pub send_values : List ℕ → List ℕ
send_values [] = []
send_values (b ∷ bs) = high_char b ∷ low_char b ∷ send_values bs

-- `c - '0'` or `c - 'a' + 10`, modulo 256
abbrev digit : ℕ → ℕ
digit c = if leb 48 c && leb c 57 then c - 48 else (c + 256 - 97 + 10) % 256

unfoldable pub convert_hexstr2int : ℕ → ℕ → ℕ
convert_hexstr2int msb lsb = bit_or (digit msb * 16 % 256) (digit lsb)

-- the bytes of a uint32_t, the lowest first
abbrev pub bytes_of : ℕ → List ℕ
bytes_of id = id % 256 ∷ id / 256 % 256 ∷ id / 65536 % 256 ∷ id / 16777216 % 256 ∷ []

-- the uint32_t of the first four bytes of a buffer
abbrev pub id_of : List ℕ → ℕ
id_of buffer =
    get_or buffer 0 0
    + get_or buffer 1 0 * 256
    + get_or buffer 2 0 * 65536
    + get_or buffer 3 0 * 16777216

-- n bytes from the index i on
unfoldable pub copy : ℕ → ℕ → List ℕ → List ℕ
copy zero i buffer = []
copy (suc n) i buffer = get_or buffer i 0 ∷ copy n (i + 1) buffer
