-- ===== src/Canix/Queue.antt =====
-- canix/canix.c: the receive queue, filled by the interrupt TIMER0_OVF_vect and emptied by
-- can_read_message (canix/mcp2515.c). A slot has room for eight bytes; the size that the controller gives
-- can be up to 15, and of a longer message the bytes behind the eighth are lost.
use mathlib.Core.Option
use hcan.Prelude.{
  ℕ, zero, suc, ◌+◌, ◌%◌, ◌^◌, Bool, true, false, Option, none, some, List, [], ◌∷◌, ltb,
  if◌then◌else◌, set, get_or, ◌==◌,
}

-- a received message: the extended identifier and the bytes
pub record Message : Type 0 where
  pub extended : ℕ
  pub bytes : List ℕ

-- canix_rx_queue_entry_t
pub record Slot : Type 0 where
  pub used : Bool
  pub message : Message

-- canix_rx_queue with canix_rx_received and canix_rx_lost
pub record Queue : Type 0 where
  pub slots : List Slot
  pub received : ℕ  -- uint32_t
  pub lost : ℕ  -- uint32_t

abbrev pub queue_size : ℕ
queue_size = 12

unfoldable pub rxq_size : List Slot → ℕ
rxq_size [] = 0
rxq_size (s ∷ ss) = if s.used then suc (rxq_size ss) else rxq_size ss

-- the first index whose slot is used, or is not used
unfoldable pub first : Bool → List Slot → Option ℕ
first want [] = none
first want (s ∷ ss) =
    if s.used
    then if want then some 0 else Option.map suc (first want ss)
    else if want
    then Option.map suc (first want ss)
    else some 0

abbrev pub index : Option ℕ → ℕ
index none = 0
index (some i) = i

unfoldable pub rxq_fetch_one : List Slot → ℕ
rxq_fetch_one ss = index (first true ss)

unfoldable pub rxq_put_one : List Slot → ℕ
rxq_put_one ss = index (first false ss)

-- the bytes that an array of data has room for
unfoldable pub first_bytes : ℕ → List ℕ → List ℕ
first_bytes zero bs = []
first_bytes (suc n) [] = []
first_bytes (suc n) (b ∷ bs) = b ∷ first_bytes n bs

abbrev pub stored : Message → Message
stored m = record m { bytes = first_bytes 8 m.bytes }

-- the part of TIMER0_OVF_vect for a message that the controller has received
unfoldable pub receive : Queue → Message → Queue
unfolding first_bytes
receive q m =
    if ltb (rxq_size q.slots) queue_size
    then record q {
      slots = set q.slots (rxq_put_one q.slots) (record { used = true; message = stored m });
      received = (q.received + 1) % 2 ^ 32;
    }
    else record q { lost = (q.lost + 1) % 2 ^ 32 }

abbrev pub empty_slot : Slot
empty_slot = record { used = false; message = record { extended = 0; bytes = [] } }

-- can_read_message; without a message it leaves its arguments alone and returns the size 0
unfoldable pub read_message : Queue → Queue × Option Message
read_message q =
    let s = get_or q.slots (rxq_fetch_one q.slots) empty_slot in
    if rxq_size q.slots == 0 then (q, none) else (
      record q { slots = set q.slots (rxq_fetch_one q.slots) (record s { used = false }) },
      some s.message,
    )

-- canix_init empties the queue; the counters start at 0
unfoldable pub init_slots : List Slot → List Slot
init_slots [] = []
init_slots (s ∷ ss) = record s { used = false } ∷ init_slots ss
