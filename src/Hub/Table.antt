-- ===== src/Hub/Table.antt =====
-- hcand/main.c: the table of peers, a packet that arrives, and the alarm of each second. The arrays
-- peer_addr and peer_timeout are one list of slots; a slot is free where its IP address is 0. addr_cmp
-- compares whole structs, of which the address and the port differ. What fails in the system's sendto is
-- logged only. The alarm comes between two packets.
use mathlib.Core.Option
use hcan.Prelude.{
  ℕ, zero, suc, ◌+◌, Bool, Option, none, some, List, [], ◌∷◌, ◌&&◌, not, if◌then◌else◌, ◌==◌, ltb,
  replicate,
}

pub record Address : Type 0 where
  pub ip : ℕ
  pub port : ℕ

pub record Slot : Type 0 where
  pub addr : Address
  pub timeout : ℕ

abbrev pub max_peers : ℕ
max_peers = 1024

abbrev pub max_timeout : ℕ
max_timeout = 60

-- addr_cmp
abbrev pub addr_cmp : Address → Address → Bool
addr_cmp a b = (a.ip == b.ip) && (a.port == b.port)

abbrev pub is_used : Slot → Bool
is_used s = not (s.addr.ip == 0)

unfoldable pub does_peer_exist : Address → List Slot → Option ℕ
does_peer_exist peer [] = none
does_peer_exist peer (s ∷ ss) =
    if addr_cmp peer s.addr then some 0 else Option.map suc (does_peer_exist peer ss)

-- the free slot that a peer is added to
unfoldable pub free_slot : List Slot → Option ℕ
free_slot [] = none
free_slot (s ∷ ss) = if is_used s then Option.map suc (free_slot ss) else some 0

unfoldable pub put_peer : ℕ → Address → List Slot → List Slot
put_peer i peer [] = []
put_peer zero peer (s ∷ ss) = record s { addr = peer } ∷ ss
put_peer (suc i) peer (s ∷ ss) = s ∷ put_peer i peer ss

-- the index of the slot and the new table
unfoldable pub add_peer : Address → List Slot → Option ℕ × List Slot
unfolding free_slot put_peer
add_peer peer table = elim (free_slot table) [
  | none ↦ (none, table)
  | some i ↦ (some i, put_peer i peer table)
]

-- peer_timeout[i] = 0
unfoldable pub clear_timeout : ℕ → List Slot → List Slot
clear_timeout i [] = []
clear_timeout zero (s ∷ ss) = record s { timeout = 0 } ∷ ss
clear_timeout (suc i) (s ∷ ss) = s ∷ clear_timeout i ss

-- the peers that the frame is sent to, in order
unfoldable pub targets : Address → List Slot → List Address
targets peer [] = []
targets peer (s ∷ ss) =
    let rest = targets peer ss in
    if is_used s && not (addr_cmp s.addr peer) then s.addr ∷ rest else rest

-- the slot of the sender, once it is known or added, and the identifier of the frame
unfoldable pub deliver : Address → ℕ → Option ℕ × List Slot → List Slot × List Address
unfolding clear_timeout targets
deliver peer id (none, table) = (table, [])
deliver peer id (some i, table) =
    let next = clear_timeout i table in (next, if id == 0 then [] else targets peer next)

-- the slot of the sender, if it has one or there is room, and the table with the sender
unfoldable pub find_or_add : Address → List Slot → Option ℕ × List Slot
unfolding does_peer_exist add_peer
find_or_add peer table = elim (does_peer_exist peer table) [
  | none ↦ add_peer peer table
  | some i ↦ (some i, table)
]

-- the main loop, for a packet of a peer: the new table, and the peers that the frame is sent to
unfoldable pub handle_packet : Address → ℕ → List Slot → List Slot × List Address
unfolding find_or_add deliver
handle_packet peer id table = deliver peer id (find_or_add peer table)

-- sig_alarm, for one slot
abbrev pub age : Slot → Slot
age s =
    if is_used s
    then if ltb max_timeout (s.timeout + 1)
      then record { addr = record { ip = 0; port = s.addr.port }; timeout = 0 }
      else record s { timeout = s.timeout + 1 }
    else s

unfoldable pub sig_alarm : List Slot → List Slot
sig_alarm [] = []
sig_alarm (s ∷ ss) = age s ∷ sig_alarm ss

-- the start of main
unfoldable pub init_peers : List Slot
init_peers =
    replicate max_peers (record { addr = record { ip = 0; port = 0 }; timeout = max_timeout })

-- what happens to the daemon
pub data Event : Type 0 where
  alarm : Event
  packet : Address → ℕ → Event

unfoldable pub handle_event : Event → List Slot → List Slot
unfolding handle_packet sig_alarm
handle_event alarm table = sig_alarm table
handle_event (packet peer id) table = (handle_packet peer id table).0

unfoldable pub run : List Event → List Slot → List Slot
run [] table = table
run (e ∷ es) table = run es (handle_event e table)
