-- ===== src/Devices/Layout.antt =====
-- devices.c: where the devices stand in the RAM after devices_load_config, and what stands there.
use hcan.Prelude.{
  ℕ, suc, ◌+◌, ◌≤◌, ◌<◌, ◌≡◌, ◌⊎◌, inl, inr, true, false, List, [], ◌∷◌, ◌++◌, if◌then◌else◌, ◌==◌,
  ◌%◌, ◌^◌, ltb, length, All, arith, refl, sym, ◌∙◌, Bool-cases,
}
use mathlib.Core.List.{append_assoc, append-nil}
use hcan.Devices.Load.{
  Block, Devices, next, max_device_data, max_pdevice_data, known, devices_init, write, put,
  write_block, fill, allocate, load_block, load_blocks, load_config,
}

write_block_below : (k at : ℕ) (vs : List ℕ) (m : ℕ → ℕ) → k < at → write_block at vs m k ≡ m k
unfolding write_block
write_block_below k at [] m lt = refl
write_block_below k at (v ∷ vs) m lt =
    ground (arith, write_block_below k (suc at) vs (write at v m))

-- the bytes of a list from an address on
abbrev pub Holds : (ℕ → ℕ) → ℕ → List ℕ → Type 0
Holds m at [] = Unit
Holds m at (v ∷ vs) = (m at ≡ v) × Holds m (suc at) vs

write_block-Holds :
    (at : ℕ) (vs : List ℕ) (m : ℕ → ℕ)
    → at + length vs ≤ max_device_data
    → Holds (write_block at vs m) at vs
unfolding write_block
write_block-Holds at [] m le = tt
write_block-Holds at (v ∷ vs) m le = (
  ground (arith, write_block_below at (suc at) vs (write at v m)),
  write_block-Holds (suc at) vs (write at v m) (omega arith),
)

-- the same bytes below an address
abbrev pub Agrees : ℕ → (ℕ → ℕ) → (ℕ → ℕ) → Type 0
Agrees n m m2 = (k : ℕ) → k < n → m2 k ≡ m k

Holds-Agrees :
    (m m2 : ℕ → ℕ) (n at : ℕ) (vs : List ℕ)
    → Agrees n m m2
    → at + length vs ≤ n
    → Holds m at vs
    → Holds m2 at vs
Holds-Agrees m m2 n at [] same le h = tt
Holds-Agrees m m2 n at (v ∷ vs) same le (h, hs) =
    (same at (omega arith) ∙ h, Holds-Agrees m m2 n (suc at) vs same (omega arith) hs)

Holds-write :
    (n v at : ℕ) (vs : List ℕ) (m : ℕ → ℕ) → n < at → Holds m at vs → Holds (write n v m) at vs
Holds-write n v at [] m lt h = tt
Holds-write n v at (w ∷ vs) m lt (h, hs) =
    (ground arith, Holds-write n v (suc at) vs m (omega arith) hs)

module _ (config_size data_size : ℕ → ℕ) where
  -- a block of no device, or one of the size that the firmware has, which the device has room for
  abbrev pub Good : Block → Type 0
  Good b =
      (known b ≡ false)
      ⊎ ((config_size b.block_type ≡ length b.bytes) × (length b.bytes < data_size b.block_type))

  -- the offsets of the devices of some blocks, one after the other, and where they end
  unfoldable pub offsets : ℕ → List Block → List ℕ
  offsets n [] = []
  offsets n (b ∷ bs) = if known b then n ∷ offsets (n + data_size b.block_type) bs else offsets n bs

  unfoldable pub end_of : ℕ → List Block → ℕ
  end_of n [] = n
  end_of n (b ∷ bs) = end_of (if known b then n + data_size b.block_type else n) bs

  unfoldable pub number : List Block → ℕ
  number [] = 0
  number (b ∷ bs) = let rest = number bs in if known b then suc rest else rest

  -- each device has its type and its configuration at its place
  pub data Placed (m : ℕ → ℕ) : ℕ → List Block → Type 0 where
    end : {n : ℕ} → Placed m n []
    other :
        {n : ℕ} {b : Block} {bs : List Block}
        → known b ≡ false
        → Placed m n bs
        → Placed m n (b ∷ bs)
    device :
        {n : ℕ} {b : Block} {bs : List Block}
        → known b ≡ true
        → m n ≡ b.block_type
        → Holds m (suc n) b.bytes
        → Placed m (n + data_size b.block_type) bs
        → Placed m n (b ∷ bs)

  record Loaded (n : ℕ) (bs : List Block) (d d2 : Devices) : Type 0 where
    in_order : d2.pdevice_data ≡ d.pdevice_data ++ offsets n bs
    usage : d2.ram_usage ≡ end_of n bs
    placed : Placed d2.device_data n bs
    kept : Agrees n d.device_data d2.device_data

  end_of-le : (n : ℕ) (bs : List Block) → n ≤ end_of n bs
  unfolding end_of
  end_of-le n [] = omega arith
  end_of-le n (b ∷ bs) = ground (arith, end_of-le n bs, end_of-le (n + data_size b.block_type) bs)

  pub load_other :
      (b : Block) (k n : ℕ) (d : Devices)
      → known b ≡ false
      → load_block config_size data_size b k n d ≡ next k n d
  unfolding load_block
  load_other b k n d unknown = rw unknown refl

  -- the state after a device
  abbrev pub with_device : Block → ℕ → ℕ → Devices → Devices
  with_device b k n d = fill b n (record d { pdevice_data = put k n d.pdevice_data })

  pub load_device :
      (b : Block) (k n : ℕ) (d : Devices)
      → known b ≡ true
      → config_size b.block_type ≡ length b.bytes
      → k < max_device_data
      → load_block config_size data_size b k n d
        ≡ next (k + 1) ((n + data_size b.block_type) % 2 ^ 16) (with_device b k n d)
  unfolding load_block allocate
  load_device b k n d is same room = rw (is, same_size, fits) refl
    where
      same_size : (config_size b.block_type == length b.bytes) ≡ true
      same_size = ground arith

      fits : ltb max_device_data (k + 1) ≡ false
      fits = ground arith

  device_first :
      (b : Block) (bs : List Block) (k n : ℕ) (d d2 : Devices)
      → known b ≡ true
      → k < max_pdevice_data
      → length b.bytes < data_size b.block_type
      → n + data_size b.block_type ≤ max_device_data
      → Loaded (n + data_size b.block_type) bs (with_device b k n d) d2
      → Loaded n (b ∷ bs) d d2
  unfolding offsets end_of fill
  device_first b bs k n d d2 is room fits inside rest =
      let found : ltb k max_pdevice_data ≡ true = ground arith in
      let order : d2.pdevice_data
          ≡ (d.pdevice_data ++ n ∷ []) ++ offsets (n + data_size b.block_type) bs =
        rest.in_order ∙ rw found refl in
      record {
        in_order = rw is (
            order ∙ append_assoc d.pdevice_data (n ∷ []) (offsets (n + data_size b.block_type) bs));
        usage = rw is rest.usage;
        placed =
            device is (rest.kept n (omega arith) ∙ ground arith)
              (Holds-Agrees (with_device b k n d).device_data d2.device_data
                (n + data_size b.block_type) (suc n) b.bytes rest.kept (omega arith)
                (Holds-write n b.block_type (suc n) b.bytes
                  (write_block (suc n) b.bytes d.device_data) (omega arith)
                  (write_block-Holds (suc n) b.bytes d.device_data (omega arith))))
              rest.placed;
        kept = λ i lt.
            rest.kept i (omega arith)
            ∙ ground (arith, write_block_below i (suc n) b.bytes d.device_data);
      }

  other_first :
      (b : Block) (bs : List Block) (n : ℕ) (d d2 : Devices)
      → known b ≡ false
      → Loaded n bs d d2
      → Loaded n (b ∷ bs) d d2
  unfolding offsets end_of
  other_first b bs n d d2 unknown rest = record {
    in_order = rw unknown rest.in_order;
    usage = rw unknown rest.usage;
    placed = other unknown rest.placed;
    kept = rest.kept;
  }

  load_blocks-Loaded :
      (bs : List Block) (k n : ℕ) (d : Devices)
      → All Good bs
      → k + number bs ≤ max_pdevice_data
      → end_of n bs ≤ max_device_data
      → Loaded n bs d (load_blocks config_size data_size bs k n d)
  unfolding load_blocks offsets end_of number
  load_blocks-Loaded [] k n d good room inside = record {
    in_order = sym (append-nil d.pdevice_data);
    usage = refl;
    placed = end;
    kept = λ i lt. refl;
  }
  load_blocks-Loaded (b ∷ bs) k n d (inl unknown, good) room inside =
      rw (load_blocks, load_other b k n d unknown)
        (other_first b bs n d (load_blocks config_size data_size bs k n d) unknown
          (load_blocks-Loaded bs k n d good (ground arith) (ground arith)))
  load_blocks-Loaded (b ∷ bs) k n d (inr (same, fits), good) room inside =
      elim (Bool-cases (known b)) [
        | inl is ↦
            let m : ℕ = n + data_size b.block_type in
            let few : k + 1 + number bs ≤ max_pdevice_data = ground arith in
            let below : end_of m bs ≤ max_device_data = ground arith in
            let last : m ≤ max_device_data = omega (arith, end_of-le m bs) in
            let small : m % 2 ^ 16 ≡ m = omega arith in
            rw (load_blocks, load_device b k n d is same (omega arith), small)
              (device_first b bs k n d
                (load_blocks config_size data_size bs (k + 1) m (with_device b k n d)) is
                (omega arith) fits last
                (load_blocks-Loaded bs (k + 1) m (with_device b k n d) good few below))
        | inr unknown ↦
            rw (load_blocks, load_other b k n d unknown)
              (other_first b bs n d (load_blocks config_size data_size bs k n d) unknown
                (load_blocks-Loaded bs k n d good (ground arith) (ground arith)))
      ]

  -- When each block is of an unknown type or has the size that the firmware has for its type, each
  -- device has room for its type and its configuration, and there are at most 64 devices that need at
  -- most 768 bytes together, devices_load_config puts the devices one after the other from offset 0
  -- on, each with its type and its configuration unchanged at its place, and device_data_ram_usage is
  -- the sum of their sizes.
  pub load_config_layout :
      (bs : List Block) (d : Devices)
      → All Good bs
      → number bs ≤ max_pdevice_data
      → end_of 0 bs ≤ max_device_data
      → let d2 = load_config config_size data_size bs d in
        (d2.pdevice_data ≡ offsets 0 bs) × (d2.ram_usage ≡ end_of 0 bs) × Placed d2.device_data 0 bs
  unfolding load_config devices_init
  load_config_layout bs d good few inside = (all.in_order, all.usage, all.placed)
    where
      all : Loaded 0 bs (devices_init d) (load_blocks config_size data_size bs 0 0 (devices_init d))
      all = load_blocks-Loaded bs 0 0 (devices_init d) good (omega arith) inside
