-- ===== src/Eds/Space.antt =====
-- canix/eds.c: the operations on the EEPROM, a map from addresses to bytes. `eds_end` is EDS_DATA_END (1023
-- or 2047, by the controller). Loops run on fuel: `eds_end` steps are enough for a space tiled by blocks,
-- since each takes two bytes at least.
use hcan.Prelude.{ℕ, zero, suc, ◌+◌, ◌-◌, ◌%◌, Bool, ◌&&◌, not, if◌then◌else◌, ◌==◌, ltb, leb}

abbrev pub Memory : Type 0
Memory = ℕ → ℕ

-- eeprom_write_byte
unfoldable pub write : ℕ → ℕ → Memory → Memory
write p v m = λ k. if k == p then v % 256 else m k

abbrev pub eds_start : ℕ
eds_start = 32

abbrev pub data_start : ℕ
data_start = 34

abbrev pub magic_1 : ℕ
magic_1 = 0xe4

abbrev pub magic_2 : ℕ
magic_2 = 0x7d

-- EDS_OK, EDS_NOT_FORMATED, EDS_INVALID_POINTER
abbrev pub ok : ℕ
ok = 0

abbrev pub not_formated : ℕ
not_formated = 1

abbrev pub invalid_pointer : ℕ
invalid_pointer = 2

-- eds_next_block
abbrev pub next_block : Memory → ℕ → ℕ
next_block m p = p + 2 + m (p + 1)

-- the new block behind the one that is allocated, out of a free block of `size` bytes
abbrev pub split : Memory → ℕ → ℕ → ℕ → Memory
split m p size n = write (p + 1) n (write (p + 2 + n + 1) (size - n - 2) (write (p + 2 + n) 0 m))

module _ (eds_end : ℕ) where
  -- the loop of eds_format
  unfoldable pub format_from : ℕ → Memory → ℕ → Memory
  unfolding write
  format_from zero m p = m
  format_from (suc k) m p =
      let size : ℕ = if ltb 128 (eds_end - (p + 1)) then 128 else eds_end - (p + 1) in
      let rest = format_from k (write (p + 1) size (write p 0 m)) (p + 2 + size) in
      if ltb p (eds_end - 2) then rest else m

  unfoldable pub format : Memory → Memory
  unfolding format_from write
  format m =
      format_from eds_end (write (eds_start + 1) magic_2 (write eds_start magic_1 m)) data_start

  unfoldable pub init : Memory → Memory × ℕ
  unfolding format
  init m =
      if (m eds_start == magic_1) && (m (eds_start + 1) == magic_2)
      then (m, ok)
      else (format m, not_formated)

  -- the loop of eds_alloc, which returns the null pointer at its end
  unfoldable pub alloc_from : ℕ → Memory → ℕ → ℕ → Memory × ℕ
  unfolding write
  alloc_from zero m p size = (m, 0)
  alloc_from (suc k) m p size =
      let rest = alloc_from k m (next_block m p) size in
      if ltb p eds_end
      then if (m p == 0) && leb size (m (p + 1))
        then if m (p + 1) == size
          then (m, p)
          else if leb (size + 2) (m (p + 1))
          then (split m p (m (p + 1)) size, p)
          else rest
        else rest
      else (m, 0)

  unfoldable pub alloc : Memory → ℕ → Memory × ℕ
  unfolding alloc_from
  alloc m size = alloc_from eds_end m data_start size

  -- the loop of eds_free
  unfoldable pub free_from : ℕ → Memory → ℕ → ℕ → Memory × ℕ
  unfolding write
  free_from zero m p block = (m, invalid_pointer)
  free_from (suc k) m p block =
      let rest = free_from k m (next_block m p) block in
      if ltb p eds_end then if p == block then (write p 0 m, ok) else rest else (m, invalid_pointer)

  unfoldable pub free : Memory → ℕ → Memory × ℕ
  unfolding free_from
  free m block = free_from eds_end m data_start block

  abbrev pub merges : Memory → ℕ → ℕ → Bool
  merges m last p = not (last == 0) && (m p == 0) && leb (m (last + 1) + 2 + m (p + 1)) 255

  -- the loop of eds_defragment
  unfoldable pub defragment_from : ℕ → Memory → ℕ → ℕ → Memory
  unfolding write
  defragment_from zero m last p = m
  defragment_from (suc k) m last p =
      let joined = merges m last p in
      let n = if joined then write (last + 1) (m (last + 1) + 2 + m (p + 1)) m else m in
      let q = if joined then last else p in
      let rest = defragment_from k n (if n q == 0 then q else 0) (next_block n q) in
      if ltb p eds_end then rest else m

  unfoldable pub defragment : Memory → Memory
  unfolding defragment_from
  defragment m = defragment_from eds_end m 0 data_start

  -- eds_find_next_block_between from a block: the block read last may stand behind the end
  unfoldable pub search_from : ℕ → Memory → ℕ → ℕ → ℕ → ℕ
  search_from zero m p low high = 0
  search_from (suc k) m p low high =
      let q = next_block m p in
      let rest = search_from k m q low high in
      if ltb p eds_end then if leb low (m q) && leb (m q) high then q else rest else 0

  unfoldable pub find_next_block_between : Memory → ℕ → ℕ → ℕ → ℕ
  unfolding search_from
  find_next_block_between m p low high =
      if p == 0
      then if leb low (m data_start) && leb (m data_start) high
        then data_start
        else search_from eds_end m data_start low high
      else search_from eds_end m p low high

  unfoldable pub find_next_block : Memory → ℕ → ℕ → ℕ
  unfolding find_next_block_between
  find_next_block m p type = find_next_block_between m p type type
