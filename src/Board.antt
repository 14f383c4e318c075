-- ===== src/Board.antt =====
-- The board that a device of firmwares/controllerboard-1612-v01 runs on: HCAN frames
-- (canix/canix.h), the output pins (darlingtonoutput.c) and the frames handed to
-- canix_frame_send_with_prio (canix/canix.c).
use hcan.Prelude.{ℕ, ◌*◌, ◌+◌, ◌/◌, ◌%◌, ◌^◌, Bool, List, ◌∷◌, ◌==◌, if◌then◌else◌, get_or}

-- canix_frame. `bytes` is data[0 .. size - 1] of a frame that is sent, and data[0 .. 7] of one
-- that is received.
pub record Frame : Type 0 where
  pub src : ℕ
  pub dst : ℕ
  pub proto : ℕ
  pub size : ℕ
  pub bytes : List ℕ

-- frame->data[i]
abbrev pub byte : Frame → ℕ → ℕ
byte f i = get_or f.bytes i 0

-- HCAN_PRIO_HI and HCAN_PRIO_LOW
pub data Prio : Type 0 where
  hi low : Prio

pub record Sent : Type 0 where
  pub frame : Frame
  pub prio : Prio

-- `self` is canix_selfaddr(); `sent` holds the newest frame first.
pub record Board : Type 0 where
  pub self : ℕ
  pub pins : ℕ → Bool
  pub sent : List Sent

-- darlingtonoutput_setpin and darlingtonoutput_getpin, over one array of pins
abbrev pub setpin : ℕ → Bool → Board → Board
setpin n v b = record b { pins = λ k. if k == n then v else b.pins k }

abbrev pub getpin : ℕ → Board → Bool
getpin n b = b.pins n

abbrev pub send : Frame → Prio → Board → Board
send f prio b = record b { sent = record { frame = f; prio = prio } ∷ b.sent }

abbrev pub proto_sfp : ℕ
proto_sfp = 1

abbrev pub srv_hes : ℕ
srv_hes = 5

abbrev pub multicast_control : ℕ
multicast_control = 35

abbrev pub multicast_info : ℕ
multicast_info = 36

-- A frame of the house electrics service (HES) from this board.
abbrev pub hes_frame : Board → ℕ → ℕ → List ℕ → Frame
hes_frame b dst size rest = record {
  src = b.self;
  dst = dst;
  proto = proto_sfp;
  size = size;
  bytes = srv_hes ∷ rest;
}

-- Bit k of a byte: `x & (1 << k)`, `x |= 1 << k`, `x &= ~(1 << k)`.
abbrev pub bit : ℕ → ℕ → Bool
bit x k = x / 2 ^ k % 2 == 1

-- (hi << 8) | lo for two bytes, and the two bytes of a 16-bit value.
abbrev pub word : ℕ → ℕ → ℕ
word msb lsb = msb * 256 + lsb

abbrev pub msb : ℕ → ℕ
msb w = w / 256 % 256

abbrev pub lsb : ℕ → ℕ
lsb w = w % 256
