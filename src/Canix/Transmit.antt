-- ===== src/Canix/Transmit.antt =====
-- canix/mcp2515.c: the transmit buffers of the CAN controller and its receive buffer; canix/canix.c: the
-- sending of a frame and the frame that canix_process_messages makes of a message.
use hcan.Prelude.{
  ℕ, zero, suc, ◌+◌, ◌*◌, ◌/◌, ◌%◌, ◌^◌, Bool, true, Option, none, some, List, [], ◌∷◌, not, ◌||◌,
  if◌then◌else◌, set, get_or, length,
}
use hcan.Board.{Frame, Prio}
use hcan.Canix.Ident.{extid, id_src, id_dst, id_proto}
use hcan.Canix.Filters.{Entry, deliver_frame}
use hcan.Canix.Queue.{Message}

-- the four registers of an identifier: SIDH, SIDL, EID8 and EID0
pub record Regs : Type 0 where
  pub sidh : ℕ
  pub sidl : ℕ
  pub eid8 : ℕ
  pub eid0 : ℕ

-- temp[0] to temp[3] in can_send_message; the masked parts do not overlap, so `|` is a sum
unfoldable pub id_regs : ℕ → Regs
id_regs id = record {
  sidh = id / 2 ^ 21 % 2 ^ 8;
  sidl = id / 2 ^ 16 % 2 ^ 8 % 4 + id / 2 ^ 13 % 2 ^ 8 / 32 * 32 + 8;
  eid8 = id / 2 ^ 8 % 2 ^ 8;
  eid0 = id % 2 ^ 8;
}

-- *extended in mcp2515_read_message
unfoldable pub regs_id : Regs → ℕ
regs_id r =
    r.eid0 + r.eid8 * 2 ^ 8 + r.sidl % 4 * 2 ^ 16 + r.sidl / 32 * 32 / 8 * 2 ^ 16 + r.sidh * 2 ^ 21

-- a transmit buffer; `txreq` is the bit TXREQ, which the controller clears when the message is sent
pub record TxBuffer : Type 0 where
  pub txreq : Bool
  pub id : Regs
  pub dlc : ℕ
  pub bytes : List ℕ

-- the controller's three transmit buffers, canix_tx_sent and canix_tx_dropped
pub record Controller : Type 0 where
  pub buffers : List TxBuffer
  pub tx_sent : ℕ  -- uint32_t
  pub tx_dropped : ℕ  -- uint32_t

abbrev pub no_buffer : TxBuffer
no_buffer = record {
  txreq = true;
  id = record { sidh = 0; sidl = 0; eid8 = 0; eid0 = 0 };
  dlc = 0;
  bytes = [];
}

-- can_sendable
unfoldable pub sendable : Controller → ℕ → Bool
sendable c i = not (get_or c.buffers i no_buffer).txreq

-- can_any_sendable
unfoldable pub any_sendable : Controller → Bool
any_sendable c = sendable c 0 || sendable c 1 || sendable c 2

-- the first buffer that is free
unfoldable pub tx_index : Controller → Option ℕ
tx_index c =
    if sendable c 0
    then some 0
    else if sendable c 1
    then some 1
    else if sendable c 2
    then some 2
    else none

abbrev pub filled : ℕ → List ℕ → TxBuffer
filled id bytes = record { txreq = true; id = id_regs id; dlc = length bytes; bytes = bytes }

-- can_send_message, with the index of the buffer
unfoldable pub send_in : Option ℕ → ℕ → List ℕ → Controller → Controller
send_in none id bytes c = record c { tx_dropped = (c.tx_dropped + 1) % 2 ^ 32 }
send_in (some i) id bytes c = record c {
  buffers = set c.buffers i (filled id bytes);
  tx_sent = (c.tx_sent + 1) % 2 ^ 32;
}

unfoldable pub send_message : ℕ → List ℕ → Controller → Controller
send_message id bytes c = send_in (tx_index c) id bytes c

abbrev pub behind : List ℕ → List ℕ
behind [] = []
behind (b ∷ bs) = bs

-- data[0 .. size - 1]
unfoldable pub data_of : ℕ → List ℕ → List ℕ
data_of zero bytes = []
data_of (suc n) bytes = get_or bytes 0 0 ∷ data_of n (behind bytes)

-- canix_frame_send_with_prio: the controller, and the callbacks that get the frame
unfoldable pub frame_send : List Entry → Frame → Prio → Controller → Controller × List ℕ
frame_send es f prio c = (
  if any_sendable c then send_message (extid f prio) (data_of f.size f.bytes) c else c,
  deliver_frame es f,
)

-- the receive buffer RXB0 with a message
pub record RxBuffer : Type 0 where
  pub id : Regs
  pub dlc : ℕ
  pub bytes : List ℕ

-- mcp2515_read_message
unfoldable pub read_rx : RxBuffer → Message
read_rx r = record { extended = regs_id r.id; bytes = data_of (r.dlc % 16) r.bytes }

-- the frame that canix_process_messages delivers; the bytes behind the size are undefined in its data
unfoldable pub frame_of : Message → Frame
frame_of m = record {
  src = id_src m.extended;
  dst = id_dst m.extended;
  proto = id_proto m.extended;
  size = length m.bytes;
  bytes = m.bytes;
}
