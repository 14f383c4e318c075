-- ===== src/Canix/Ident.antt =====
-- canix/canix.c: the CAN identifier that canix_frame_send_with_prio builds and
-- canix_process_messages takes apart. The masked fields do not overlap, so `|` of the shifted fields
-- is a sum.
use hcan.Prelude.{ℕ, ◌+◌, ◌*◌, ◌/◌, ◌%◌, ◌^◌, ◌<◌, ◌≡◌, arith}
use hcan.Board.{Frame, Prio, hi, low}

-- HCAN_PRIO_HI and HCAN_PRIO_LOW
abbrev pub prio_code : Prio → ℕ
prio_code hi = 0
prio_code low = 3

unfoldable pub extid : Frame → Prio → ℕ
extid f prio =
    f.src % 2 ^ 10 + f.dst % 2 ^ 10 * 2 ^ 10 + f.proto % 2 ^ 3 * 2 ^ 20 + prio_code prio * 2 ^ 24

-- the fields that canix_process_messages reads from an identifier
unfoldable pub id_dst : ℕ → ℕ
id_dst id = id / 2 ^ 10 % 2 ^ 10

unfoldable pub id_src : ℕ → ℕ
id_src id = id % 2 ^ 10

unfoldable pub id_proto : ℕ → ℕ
id_proto id = id / 2 ^ 20 % 2 ^ 3

-- A frame with 10-bit addresses and a 3-bit protocol is read back as it was sent, with either
-- priority, and its identifier fits the 29 bits of CAN 2.0b.
pub extid_fields :
    (f : Frame) (prio : Prio)
    → f.src < 2 ^ 10
    → f.dst < 2 ^ 10
    → f.proto < 2 ^ 3
    → (id_src (extid f prio) ≡ f.src)
      × (id_dst (extid f prio) ≡ f.dst)
      × (id_proto (extid f prio) ≡ f.proto)
      × (extid f prio < 2 ^ 29)
unfolding extid id_dst id_src id_proto
extid_fields f hi s d p = omega arith
extid_fields f low s d p = omega arith

-- Of two frames the one with high priority has the smaller identifier, which wins the arbitration,
-- whatever their addresses and protocols.
pub extid_hi-lt-low : (f g : Frame) → extid f hi < extid g low
unfolding extid
extid_hi-lt-low f g = omega arith
