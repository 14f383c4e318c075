-- ===== src/Serial/Digits.antt =====
-- A byte that is sent as two hexadecimal characters is read back (both programs of the serial line).
use hcan.Prelude.{
  ℕ, zero, suc, ◌<◌, ◌≡◌, refl, Bool, true, false, arith, ◌==◌, ==_iff, if◌then◌else◌, not, ◌&&◌,
  ltb,
}
use hcan.Serial.Hex.{is_command, high_char, low_char, convert_hexstr2int}

-- Over a small range, every value is checked by evaluation.
all_below : ℕ → (ℕ → Bool) → Bool
all_below zero p = true
all_below (suc n) p = if p n then all_below n p else false

all_below_sound : (n : ℕ) (p : ℕ → Bool) (x : ℕ) → all_below n p ≡ true → x < n → p x ≡ true
unfolding all_below
all_below_sound zero p x h lt = ground arith
all_below_sound (suc n) p x h lt = ground (arith, all_below_sound n p x)

-- no character of a value is a command
abbrev is_plain : ℕ → Bool
is_plain b = not (is_command (high_char b)) && not (is_command (low_char b))

values_plain : all_below 256 is_plain ≡ true
unfolding all_below high_char low_char
values_plain = refl

values_back : all_below 256 (λ b. convert_hexstr2int (high_char b) (low_char b) == b) ≡ true
unfolding all_below convert_hexstr2int high_char low_char
values_back = refl

values_ascii : all_below 256 (λ b. ltb (high_char b) 128) ≡ true
unfolding all_below high_char
values_ascii = refl

pub high_char-lt : (b : ℕ) → b < 256 → high_char b < 128
high_char-lt b h =
    let small : ltb (high_char b) 128 ≡ true =
      all_below_sound 256 (λ b. ltb (high_char b) 128) b values_ascii h in
    ground arith

pub high_char_plain : (b : ℕ) → b < 256 → is_command (high_char b) ≡ false
high_char_plain b h =
    let plain : is_plain b ≡ true = all_below_sound 256 is_plain b values_plain h in ground arith

pub low_char_plain : (b : ℕ) → b < 256 → is_command (low_char b) ≡ false
low_char_plain b h =
    let plain : is_plain b ≡ true = all_below_sound 256 is_plain b values_plain h in ground arith

pub convert_hexstr2int_lem : (b : ℕ) → b < 256 → convert_hexstr2int (high_char b) (low_char b) ≡ b
convert_hexstr2int_lem b h = (==_iff _ b).0 (all_below_sound 256 _ b values_back h)
