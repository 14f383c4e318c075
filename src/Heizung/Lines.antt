-- ===== src/Heizung/Lines.antt =====
-- Reading and writing the lines of set temperatures over the bus (heizung.c).
use hcan.Prelude.{
  ℕ, zero, suc, ◌+◌, ◌*◌, ◌≤◌, ◌<◌, ◌≡◌, ◌≢◌, arith, refl, List, [], ◌∷◌, get_or, set, length,
}
use hcan.Board.{Frame, byte, msb, lsb, word, low}
use hcan.Heizung.State.{Heizung}
use hcan.Heizung.Callback.{
  on_write_line, on_line_request, line_at, answer, with_temp, write_line_ack, write_word,
  line_replay, block_id,
}

get-set : {A : Type 0} (xs : List A) (i : ℕ) (v d : A) → i < length xs → get_or (set xs i v) i d ≡ v
get-set [] i v d h = ground arith
get-set (x ∷ xs) zero v d h = refl
get-set (x ∷ xs) (suc i) v d h = get-set xs i v d (omega arith)

write_word_back :
    (a w : ℕ) (e : ℕ → ℕ) → w < 65536 → word (write_word a w e (a + 1)) (write_word a w e a) ≡ w
write_word_back a w e b = ground arith

writes :
    (p : Heizung) (f : Frame)
    → byte f 3 ≤ 7
    → p.it ≢ 0
    → p.eeprom p.it ≡ block_id
    → on_write_line p f
      ≡ answer
          (with_temp p (byte f 3) (word (byte f 4) (byte f 5)))
          f
          4
          (write_line_ack ∷ p.config.id ∷ byte f 3 ∷ [])
          low
unfolding on_write_line
writes p f i n b = ground arith

replies :
    (p : Heizung) (g : Frame)
    → byte g 3 ≤ 7
    → on_line_request p g
      ≡ answer p g 7
          (line_replay
            ∷ p.config.id
            ∷ byte g 3
            ∷ msb (line_at p (byte g 3)).temp
            ∷ lsb (line_at p (byte g 3)).temp
            ∷ (line_at p (byte g 3)).id
            ∷ [])
          low
unfolding on_line_request
replies p g i = ground arith

msb-word : (h l : ℕ) → h < 256 → l < 256 → msb (word h l) ≡ h
msb-word h l a b = omega arith

lsb-word : (h l : ℕ) → h < 256 → l < 256 → lsb (word h l) ≡ l
lsb-word h l a b = omega arith

-- On a circuit of eight lines whose EEPROM block is its own: a frame that writes the temperature of line
-- 0 to 7 puts it into the EEPROM, the low byte first, and a request for that line is from then on
-- answered with the two bytes written and the line's zone.
pub line_write_read :
    (p : Heizung) (f g : Frame)
    → length p.config.lines ≡ 8
    → p.it ≢ 0
    → p.eeprom p.it ≡ block_id
    → byte f 3 ≤ 7
    → byte f 4 < 256
    → byte f 5 < 256
    → byte g 3 ≡ byte f 3
    → let q = on_write_line p f in
      let place = p.it + 6 + byte f 3 * 3 + 1 in
      let zone = (line_at p (byte f 3)).id in
      (on_line_request q g
        ≡ answer q g 7 (line_replay ∷ p.config.id ∷ byte f 3 ∷ byte f 4 ∷ byte f 5 ∷ zone ∷ []) low)
      × (q.eeprom place ≡ byte f 5)
      × (q.eeprom (place + 1) ≡ byte f 4)
line_write_read p f g len n b i h l same =
    let here = writes p f i n b in
    let q = with_temp p (byte f 3) (word (byte f 4) (byte f 5)) in
    let line : line_at q (byte f 3)
        ≡ record (line_at p (byte f 3)) { temp = word (byte f 4) (byte f 5) } =
      get-set p.config.lines (byte f 3) _ _ (omega arith) in
    let ack = answer q f 4 (write_line_ack ∷ p.config.id ∷ byte f 3 ∷ []) low in
    let low_byte = lsb-word (byte f 4) (byte f 5) h l in
    let high_byte = msb-word (byte f 4) (byte f 5) h l in
    rw here (
      rw (replies ack g (omega arith), same, line, low_byte, high_byte) refl,
      ground arith,
      ground arith,
    )
