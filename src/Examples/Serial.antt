-- ===== src/Examples/Serial.antt =====
-- A frame on the serial line, in both directions (hostinterface-v02/main.c and hcanhid/main.c).
use hcan.Prelude.{◌<◌, ◌≡◌, false, none, some, refl, [], ◌∷◌, length, replicate, arith}
use hcan.Serial.Interface.{Message, Interface}
use hcan.Serial.Interface
use hcan.Serial.Daemon.{Daemon}
use hcan.Serial.Daemon
use hcan.Serial.ToBus.{to_bus}
use hcan.Serial.ToHost.{to_host}
use hcan.Serial.Bounds.{adapter_bounds}

abbrev light_on : Message
light_on = record { extended = 0x10250231; content = 5 ∷ 10 ∷ 17 ∷ [] }

-- an adapter in the middle of a frame
abbrev adapter : Interface
adapter = record {
  serial = 0;
  obuffer = replicate 64 0;
  oindex = 9;
  first_bits_char = some 65;
  usb = [];
  sent = [];
  halted = false;
}

abbrev daemon : Daemon
daemon = record {
  ibuffer = replicate 64 0;
  iindex = 3;
  first_bits_char = none;
  reset_flag = false;
  to_hcand = none;
  to_hi = none;
  written = [];
  packet_sent = 0;
  packet_recvd = 4;
}

to_bus_example :
    let q = Interface.receive (Daemon.frame_chars light_on) adapter in
    (q.sent ≡ light_on ∷ []) × (q.halted ≡ false) × (length q.obuffer ≡ 64) × (q.usb ≡ [])
to_bus_example =
    to_bus adapter light_on refl refl (omega arith) (omega arith)
      (omega arith, (omega arith, (omega arith, tt)))

to_host_example :
    let q = Daemon.receive (Interface.frame_chars light_on) daemon in
    (q.to_hcand ≡ some light_on)
    × (q.packet_recvd ≡ 5)
    × (q.written ≡ [])
    × (q.first_bits_char ≡ none)
    × (q.reset_flag ≡ false)
    × (length q.ibuffer ≡ 64)
to_host_example =
    to_host daemon light_on refl refl refl (omega arith) (omega arith)
      (omega arith, (omega arith, (omega arith, tt)))

-- the two characters of a value
adapter_bounds_example :
    ((Interface.receive (48 ∷ 49 ∷ []) adapter).oindex < 64)
    × (length (Interface.receive (48 ∷ 49 ∷ []) adapter).obuffer ≡ 64)
unfolding Interface.receive Interface.handle_serial_input
adapter_bounds_example =
    adapter_bounds (48 ∷ 49 ∷ []) adapter (record { size = refl; index = refl }) refl
