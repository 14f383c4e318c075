-- ===== src/Devices/Refusal.antt =====
-- devices.c: a configuration of another firmware.
use hcan.Prelude.{ℕ, ◌≡◌, [], ◌∷◌}
use hcan.Devices.Load.{Block, Devices, compat_message}

module _ (config_size data_size : ℕ → ℕ) where
  -- no device, and the message for a block
  pub record Refused (b : Block) (d d2 : Devices) : Type 0 where
    none_left : d2.pdevice_data ≡ []
    cleared : (k : ℕ) → d2.device_data k ≡ 0
    no_usage : d2.ram_usage ≡ 0
    told : d2.sent ≡ compat_message d b (config_size b.block_type) ∷ d.sent
