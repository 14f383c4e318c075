-- ===== src/Addressd/State.antt =====
-- hcanaddressd/main.c: the table of addresses and a round of the main loop. The system's answers are
-- arguments: the connection that accept gives, if any, and the sockets on which select finds data and read
-- the end of the stream. A socket is none where the code has -1.
use hcan.Prelude.{ℕ, zero, suc, Bool, true, false, Option, none, some, List, [], ◌∷◌, if◌then◌else◌}

-- peer_t
pub record Peer : Type 0 where
  pub socket : Option ℕ
  pub address : ℕ

-- MAX_PEER
abbrev pub max_peer : ℕ
max_peer = 32

-- init_peer_array, from the address `a` on for `n` slots
unfoldable pub init_from : ℕ → ℕ → List Peer
init_from zero a = []
init_from (suc n) a = record { socket = none; address = a } ∷ init_from n (suc a)

unfoldable pub init_peer_array : List Peer
unfolding init_from
init_peer_array = init_from max_peer 512

abbrev pub is_free : Peer → Bool
is_free p = elim p.socket [ none ↦ true | some s ↦ false ]

-- assign_address: the table, and the address or none for -1
unfoldable pub assign_address : ℕ → List Peer → List Peer × Option ℕ
assign_address sock [] = ([], none)
assign_address sock (p ∷ ps) =
    let rest = assign_address sock ps in
    if is_free p
    then (record p { socket = some sock } ∷ ps, some p.address)
    else (p ∷ rest.0, rest.1)

-- what a round finds: the new connection, and the sockets whose peer has closed the connection
pub record Round : Type 0 where
  pub accepted : Option ℕ
  pub at_end : ℕ → Bool

-- an address that is written to a socket
pub record Lease : Type 0 where
  pub socket : ℕ
  pub address : ℕ

-- the daemon; `written` and `closed` hold the newest first
pub record Daemon : Type 0 where
  pub peers : List Peer
  pub written : List Lease
  pub closed : List ℕ

abbrev pub answer : ℕ → List Peer × Option ℕ → Daemon → Daemon
answer sock (ps, none) d = record d { closed = sock ∷ d.closed }
answer sock (ps, some a) d = record d {
  peers = ps;
  written = record { socket = sock; address = a } ∷ d.written;
}

-- the first part of a round
unfoldable pub connect : Option ℕ → Daemon → Daemon
connect none d = d
connect (some sock) d = answer sock (assign_address sock d.peers) d

-- whether a peer's socket is at its end
abbrev pub ends : (ℕ → Bool) → Peer → Bool
ends at_end p = elim p.socket [ none ↦ false | some s ↦ at_end s ]

-- the loop over the peers, in a round's second part
unfoldable pub release : (ℕ → Bool) → List Peer → List Peer
release at_end [] = []
release at_end (p ∷ ps) =
    (if ends at_end p then record p { socket = none } else p) ∷ release at_end ps

-- the sockets that are closed there, the last one first
unfoldable pub released : (ℕ → Bool) → List Peer → List ℕ → List ℕ
released at_end [] done = done
released at_end (p ∷ ps) done =
    released at_end ps
      (elim p.socket [ none ↦ done | some s ↦ if at_end s then s ∷ done else done ])

-- a round of main's loop
unfoldable pub round : Round → Daemon → Daemon
round r d =
    let e = connect r.accepted d in
    record e { peers = release r.at_end e.peers; closed = released r.at_end e.peers e.closed }

-- rounds, the last one first
unfoldable pub run : List Round → Daemon → Daemon
run [] d = d
run (r ∷ rs) d = round r (run rs d)

abbrev pub start : Daemon
start = record { peers = init_peer_array; written = []; closed = [] }
