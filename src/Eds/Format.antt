-- ===== src/Eds/Format.antt =====
-- eds_format (canix/eds.c) tiles the data space with free blocks.
use hcan.Prelude.{
  ℕ, zero, suc, ◌+◌, ◌-◌, ◌%◌, ◌≤◌, ◌<◌, ◌≡◌, ◌&&◌, true, false, arith, refl, ◌∙◌, List, [], ◌∷◌,
  ◌==◌, ltb, lt→ltb, ltb→lt, Bool-cases, inl, inr, All,
}
use hcan.Eds.Space.{
  Memory, write, eds_start, magic_1, magic_2, data_start, format_from, format, init, ok,
}
use hcan.Eds.Chain.{Block, Chain}

-- a chain of free blocks of at most 128 bytes
abbrev pub IsBlank : Block → Type 0
IsBlank b = (b.type ≡ 0) × (b.size ≤ 128)

module _ (eds_end : ℕ) where
  -- what the loop does from the address p on: the bytes before it stay
  record Formats (p : ℕ) (m w : Memory) : Type 0 where
    blocks : List Block
    blank : All IsBlank blocks
    chain : Chain eds_end w p blocks
    before : (k : ℕ) → k < p → w k ≡ m k

  headed :
      (p s : ℕ) (m w : Memory)
      → s ≤ 128
      → Formats (p + 2 + s) (write (p + 1) s (write p 0 m)) w
      → Formats p m w
  unfolding write
  headed p s m w small f = record {
    blocks = record { type = 0; size = s } ∷ f.blocks;
    blank = ((refl, small), f.blank);
    chain = (
      f.before p (omega arith) ∙ ground arith,
      f.before (p + 1) (omega arith) ∙ ground arith,
      omega arith,
      f.chain,
    );
    before = λ k h. f.before k (omega arith) ∙ ground arith;
  }

  finished : (k p : ℕ) (m : Memory) → p ≡ suc eds_end → Formats p m (format_from eds_end k m p)
  unfolding format_from
  finished zero p m e = record { blocks = []; blank = tt; chain = e; before = λ k h. refl }
  finished (suc k) p m e =
      let outside : ltb p (eds_end - 2) ≡ false = ground arith in
      rw outside (record { blocks = []; blank = tt; chain = e; before = λ k h. refl })

  format_from-Formats :
      (k p : ℕ) (m : Memory)
      → eds_end < p + k
      → p + 2 < eds_end
      → 2 < (eds_end - p) % 130
      → Formats p m (format_from eds_end k m p)
  unfolding format_from
  format_from-Formats zero p m f i r = ground arith
  format_from-Formats (suc k) p m f i r =
      let inside = lt→ltb p (eds_end - 2) (omega arith) in
      rw inside (elim (Bool-cases (ltb 128 (eds_end - (p + 1)))) [
        | inl long ↦
            let far = ltb→lt 128 (eds_end - (p + 1)) long in
            rw long (
              headed p 128 m _ (omega arith) (
                format_from-Formats k (p + 2 + 128) (write (p + 1) 128 (write p 0 m)) (omega arith)
                  (omega arith) (omega arith)))
        | inr short ↦
            let size = eds_end - (p + 1) in
            let near : size ≤ 128 = ground arith in
            rw short (
              headed p size m _ near
                (finished k (p + 2 + size) (write (p + 1) size (write p 0 m)) (omega arith)))
      ])

  formatted :
      (m : Memory)
      → 34 + 2 < eds_end
      → 2 < (eds_end - data_start) % 130
      → Formats data_start
          (write (eds_start + 1) magic_2 (write eds_start magic_1 m))
          (format eds_end m)
  unfolding format
  formatted m i r = format_from-Formats eds_end data_start _ (omega arith) i r

  -- Formatting a data space whose length (EDS_DATA_END - 34) leaves a rest of more than 2 modulo 130 tiles
  -- it with free blocks of at most 128 bytes, up to its end, and leaves the bytes before its two magic
  -- bytes alone.
  pub format_tiles :
      (m : Memory) (k : ℕ)
      → 34 + 2 < eds_end
      → 2 < (eds_end - data_start) % 130
      → k < eds_start
      → ((bs : List Block) × All IsBlank bs × Chain eds_end (format eds_end m) data_start bs)
        × (format eds_end m k ≡ m k)
  unfolding write
  format_tiles m k i r h =
      let f = formatted m i r in
      ((f.blocks, f.blank, f.chain), f.before k (omega arith) ∙ ground arith)

  formatted_magic :
      (m : Memory)
      → 34 + 2 < eds_end
      → 2 < (eds_end - data_start) % 130
      → (format eds_end m eds_start ≡ magic_1) × (format eds_end m (eds_start + 1) ≡ magic_2)
  unfolding write
  formatted_magic m i r =
      let f = formatted m i r in
      (f.before eds_start (omega arith), f.before (eds_start + 1) (omega arith))

  -- Where the length of the data space (EDS_DATA_END - 34) leaves a rest of more than 2 modulo 130, a second
  -- eds_init finds the space formatted, whatever the memory was before the first, and changes nothing.
  pub init_settles :
      (m : Memory)
      → 34 + 2 < eds_end
      → 2 < (eds_end - data_start) % 130
      → let (w, first) = init eds_end m in init eds_end w ≡ (w, ok)
  unfolding init
  init_settles m i r =
      elim (Bool-cases ((m eds_start == magic_1) && (m (eds_start + 1) == magic_2))) [
        | inl same ↦ rw same (rw same refl)
        | inr other ↦
            let (first, second) = formatted_magic m i r in
            let same : (format eds_end m eds_start == magic_1)
                  && (format eds_end m (eds_start + 1) == magic_2)
                ≡ true =
              rw (first, second) refl in
            rw other (rw same refl)
      ]
