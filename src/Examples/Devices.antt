-- ===== src/Examples/Devices.antt =====
-- A configuration with a button and a power port (devices.c), and the calls of their handlers (timer.c).
use hcan.Prelude.{ℕ, ◌≡◌, refl, [], ◌∷◌, inr, arith, if◌then◌else◌, ◌==◌}
use hcan.Devices.Load.{Block, Devices, load_config}
use hcan.Devices.Layout.{Placed, number, offsets, end_of, load_config_layout}
use hcan.Devices.Timer.{start, calls_in}
use hcan.Devices.Schedule.{total, busy, handlers_called}

-- the sizes of a button, and of the other types
abbrev config_size : ℕ → ℕ
config_size t = if t == 10 then 3 else 6

abbrev data_size : ℕ → ℕ
data_size t = if t == 10 then 5 else 10

abbrev button : Block
button = record { it = 40; block_type = 10; bytes = 9 ∷ 0 ∷ 17 ∷ [] }

abbrev port : Block
port = record { it = 45; block_type = 11; bytes = 2 ∷ 0 ∷ 17 ∷ 255 ∷ 255 ∷ 255 ∷ [] }

abbrev old_port : Block
old_port = record { it = 45; block_type = 11; bytes = 2 ∷ 0 ∷ 17 ∷ 255 ∷ [] }

abbrev board : Devices
board = record { pdevice_data = []; device_data = λ n. 0; ram_usage = 0; self = 100; sent = [] }

load_config_layout_example :
    let d2 = load_config config_size data_size (button ∷ port ∷ []) board in
    (d2.pdevice_data ≡ 0 ∷ 5 ∷ [])
    × (d2.ram_usage ≡ 15)
    × Placed config_size data_size d2.device_data 0 (button ∷ port ∷ [])
unfolding number offsets end_of
load_config_layout_example =
    load_config_layout config_size data_size (button ∷ port ∷ []) board
      (inr (refl, omega arith), (inr (refl, omega arith), tt)) (omega arith) (omega arith)

-- a multitaster
handlers_called_example : calls_in 23 (10 ∷ 10 ∷ 3 ∷ []) start ≡ 5
unfolding total busy
handlers_called_example =
    handlers_called 23 (10 ∷ 10 ∷ 3 ∷ []) (omega arith, (omega arith, (omega arith, tt)))
