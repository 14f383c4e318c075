-- ===== src/Devices/Load.antt =====
-- devices.c: the arrays of the devices in the RAM, and devices_load_config, which fills them from the
-- blocks of the EEPROM, in their order. What is written behind the end of pdevice_data or of device_data is
-- lost. sizeof is a parameter. The `init` functions of the devices, which
-- run after their configuration is copied, stand with the devices; the rest of a device's data is 0.
use hcan.Prelude.{
  ℕ, suc, ◌+◌, ◌/◌, ◌%◌, ◌^◌, Bool, List, [], ◌∷◌, ◌++◌, if◌then◌else◌, ◌==◌, leb, ltb, ◌&&◌,
  length,
}
use hcan.Board.{Frame, proto_sfp}

-- a block: its address in the EEPROM, its type and its bytes
pub record Block : Type 0 where
  pub it : ℕ
  pub block_type : ℕ
  pub bytes : List ℕ

-- pdevice_data as the offsets in device_data of the devices that are there, device_data,
-- device_data_ram_usage, and the frames that are sent, the newest first
pub record Devices : Type 0 where
  pub pdevice_data : List ℕ
  pub device_data : ℕ → ℕ
  pub ram_usage : ℕ
  pub self : ℕ
  pub sent : List Frame

-- MAX_DEVICE_DATA and MAX_PDEVICE_DATA of the ATmega32
abbrev pub max_device_data : ℕ
max_device_data = 768

abbrev pub max_pdevice_data : ℕ
max_pdevice_data = 64

-- the types of the switch are all the numbers from EDS_taster_BLOCK_ID to EDS_powerportAutomat_BLOCK_ID
abbrev pub is_device : ℕ → Bool
is_device t = leb 10 t && leb t 29

abbrev pub known : Block → Bool
known b = is_device b.block_type

unfoldable pub devices_init : Devices → Devices
devices_init d = record d { pdevice_data = []; device_data = λ n. 0 }

-- device_data[at] = v
abbrev pub write : ℕ → ℕ → (ℕ → ℕ) → ℕ → ℕ
write at v memory n = if (n == at) && ltb at max_device_data then v else memory n

-- pdevice_data[count] = p
abbrev pub put : ℕ → ℕ → List ℕ → List ℕ
put count p ps = if ltb count max_pdevice_data then ps ++ p ∷ [] else ps

unfoldable pub write_block : ℕ → List ℕ → (ℕ → ℕ) → ℕ → ℕ
write_block at [] memory = memory
write_block at (v ∷ vs) memory = write_block (suc at) vs (write at v memory)

-- HCAN_MULTICAST_SYSLOG, HCAN_SRV_SLS and HCAN_SLS_FIRMWARE_CONFIG_COMPAT_ERROR
abbrev pub compat_message : Devices → Block → ℕ → Frame
compat_message d b config_size = record {
  src = d.self;
  dst = 970;
  proto = proto_sfp;
  size = 7;
  bytes = 4 ∷ 3 ∷ b.block_type ∷ b.it / 256 ∷ b.it % 256 ∷ length b.bytes ∷ config_size ∷ [];
}

-- the end of the compatibility check that fails: no device
unfoldable pub refuse : Block → ℕ → Devices → Devices
unfolding devices_init
refuse b config_size d = record (devices_init d) {
  ram_usage = 0;
  sent = compat_message d b config_size ∷ d.sent;
}

-- the bytes of a block and its type copied to the device at the offset `p`
unfoldable pub fill : Block → ℕ → Devices → Devices
unfolding write_block
fill b p d = record d {
  device_data = write p b.block_type (write_block (suc p) b.bytes d.device_data);
}

-- how the loop goes on after a block: with the numbers of the devices and of the bytes that are allocated,
-- or not at all
pub data Step : Type 0 where
  next : ℕ → ℕ → Devices → Step
  done : Devices → Step

module _ (config_size data_size : ℕ → ℕ) where
  -- the allocation of a device; a size_t has 16 bits
  unfoldable pub allocate : Block → ℕ → ℕ → Devices → Step
  unfolding fill
  allocate b count allocated d =
      let q = record d { pdevice_data = put count allocated d.pdevice_data } in
      if ltb max_device_data (count + 1)
      then done q
      else next (count + 1) ((allocated + data_size b.block_type) % 2 ^ 16) (fill b allocated q)

  -- the body of the loop
  unfoldable pub load_block : Block → ℕ → ℕ → Devices → Step
  unfolding refuse allocate
  load_block b count allocated d =
      if known b
      then if config_size b.block_type == length b.bytes
        then allocate b count allocated d
        else done (refuse b (config_size b.block_type) d)
      else next count allocated d

  unfoldable pub load_blocks : List Block → ℕ → ℕ → Devices → Devices
  unfolding load_block
  load_blocks [] count allocated d = record d { ram_usage = allocated }
  load_blocks (b ∷ bs) count allocated d = elim (load_block b count allocated d) [
    | next number more q ↦ load_blocks bs number more q
    | done q ↦ q
  ]

  -- devices_load_config
  unfoldable pub load_config : List Block → Devices → Devices
  unfolding load_blocks devices_init
  load_config bs d = load_blocks bs 0 0 (devices_init d)
