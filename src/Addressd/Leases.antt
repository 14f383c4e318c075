-- ===== src/Addressd/Leases.antt =====
-- Who holds which address of hcanaddressd.
use mathlib.Core.Bool.{false≢true}
use hcan.Prelude.{
  ℕ, zero, suc, ◌+◌, ◌<◌, ◌≡◌, ◌≢◌, inl, inr, Bool, true, false, Option, none, some, List, [], ◌∷◌,
  if◌then◌else◌, set, get_or, length, length-set, arith, refl, ap, sym, ◌∙◌, ◌==◌, Bool-cases,
  ==_iff,
}
use hcan.Addressd.State.{
  Peer, Lease, Round, Daemon, init_from, init_peer_array, is_free, assign_address, answer, connect,
  ends, release, round, run, start,
}

abbrev pub no_peer : Peer
no_peer = record { socket = none; address = 0 }

-- peers[i]
abbrev pub slot : List Peer → ℕ → Peer
slot ps i = get_or ps i no_peer

pub slot-release :
    (e : ℕ → Bool) (ps : List Peer) (i : ℕ)
    → slot (release e ps) i
      ≡ (if ends e (slot ps i) then record (slot ps i) { socket = none } else slot ps i)
unfolding release
slot-release e [] i = refl
slot-release e (p ∷ ps) zero = refl
slot-release e (p ∷ ps) (suc i) = slot-release e ps i

-- an address is given with the slot that it belongs to, which was free
record Given (sock a : ℕ) (ps qs : List Peer) : Type 0 where
  at : ℕ
  inside : at < length ps
  was_free : is_free (slot ps at) ≡ true
  its_address : (slot ps at).address ≡ a
  taken : qs ≡ set ps at (record (slot ps at) { socket = some sock })

assign-Given :
    (sock a : ℕ) (ps : List Peer)
    → (assign_address sock ps).1 ≡ some a
    → Given sock a ps (assign_address sock ps).0
unfolding assign_address
assign-Given sock a [] e = ground arith
assign-Given sock a (p ∷ ps) e = elim (Bool-cases (is_free p)) [
  | inl free ↦ rw free (record {
    at = 0;
    inside = omega arith;
    was_free = free;
    its_address = first_address (rw free at e);
    taken = refl;
  })
  | inr used ↦
      let g = assign-Given sock a ps (rw used at e) in
      rw used (record {
        at = suc g.at;
        inside = later_inside g.inside;
        was_free = g.was_free;
        its_address = g.its_address;
        taken = ap (λ qs. p ∷ qs) g.taken;
      })
]
  where
    first_address : some p.address ≡ some a → p.address ≡ a
    first_address h = ground arith

    later_inside : {k : ℕ} → k < length ps → suc k < length (p ∷ ps)
    later_inside h = omega arith

pub get_or_set_at : (ps : List Peer) (i : ℕ) (p : Peer) → i < length ps → slot (set ps i p) i ≡ p
get_or_set_at [] i p lt = ground arith
get_or_set_at (q ∷ ps) zero p lt = refl
get_or_set_at (q ∷ ps) (suc i) p lt = get_or_set_at ps i p (omega arith)

pub get_or_set_other :
    (ps : List Peer) (i k : ℕ) (p : Peer) → k ≢ i → slot (set ps i p) k ≡ slot ps k
get_or_set_other [] i k p ne = refl
get_or_set_other (q ∷ ps) zero zero p ne = ground arith
get_or_set_other (q ∷ ps) zero (suc k) p ne = refl
get_or_set_other (q ∷ ps) (suc i) zero p ne = refl
get_or_set_other (q ∷ ps) (suc i) (suc k) p ne = get_or_set_other ps i k p (λ e. ne (ap suc e))

-- the table has 32 slots with the addresses from 512 on
pub record IsTable (ps : List Peer) : Type 0 where
  pub slots : length ps ≡ 32
  pub numbered : (i : ℕ) → i < 32 → (slot ps i).address ≡ 512 + i

-- A connection gets a slot that was free, and its address, or the table stays as it is.
pub data Connected (o : Option ℕ) (d e : Daemon) : Type 0 where
  stays : e.peers ≡ d.peers → e.written ≡ d.written → Connected o d e
  gets :
      (sock k : ℕ)
      → o ≡ some sock
      → k < 32
      → is_free (slot d.peers k) ≡ true
      → e.peers ≡ set d.peers k (record (slot d.peers k) { socket = some sock })
      → e.written ≡ record { socket = sock; address = 512 + k } ∷ d.written
      → Connected o d e

answered :
    (sock : ℕ) (d : Daemon) (qs : List Peer) (o : Option ℕ)
    → IsTable d.peers
    → ((a : ℕ) → o ≡ some a → Given sock a d.peers qs)
    → Connected (some sock) d (answer sock (qs, o) d)
answered sock d qs none t given = stays refl refl
answered sock d qs (some a) t given =
    let g = given a refl in
    let inside : g.at < 32 = rw t.slots at g.inside in
    let address : a ≡ 512 + g.at = sym g.its_address ∙ t.numbered g.at inside in
    gets sock g.at refl inside g.was_free g.taken (rw address refl)

pub connect-Connected : (o : Option ℕ) (d : Daemon) → IsTable d.peers → Connected o d (connect o d)
unfolding connect
connect-Connected none d t = stays refl refl
connect-Connected (some sock) d t =
    answered sock d (assign_address sock d.peers).0 (assign_address sock d.peers).1 t
      (λ a e. assign-Given sock a d.peers e)

length-release : (e : ℕ → Bool) (ps : List Peer) → length (release e ps) ≡ length ps
unfolding release
length-release e [] = refl
length-release e (p ∷ ps) = ap suc (length-release e ps)

release-IsTable : (e : ℕ → Bool) (ps : List Peer) → IsTable ps → IsTable (release e ps)
release-IsTable e ps t = record {
  slots = length-release e ps ∙ t.slots;
  numbered = λ i lt. rw (slot-release e ps i) (ground (arith, t.numbered i lt));
}

set-IsTable :
    (ps : List Peer) (k : ℕ) (s : Option ℕ)
    → k < 32
    → IsTable ps
    → IsTable (set ps k (record (slot ps k) { socket = s }))
set-IsTable ps k s lt t = record {
  slots = length-set ps k (record (slot ps k) { socket = s }) ∙ t.slots;
  numbered = λ i il. elim (Bool-cases (i == k)) [
    | inl same ↦
        rw
          (
            (==_iff i k).0 same,
            get_or_set_at ps k (record (slot ps k) { socket = s }) (rw t.slots lt),
          )
          (t.numbered k lt)
    | inr other ↦
        rw (get_or_set_other ps k i (record (slot ps k) { socket = s }) (ground arith))
          (t.numbered i il)
  ];
}

pub Connected-IsTable :
    (o : Option ℕ) (d e : Daemon) → Connected o d e → IsTable d.peers → IsTable e.peers
Connected-IsTable o d e (stays same w) t = rw same t
Connected-IsTable o d e (gets sock k a lt free taken w) t =
    rw taken (set-IsTable d.peers k (some sock) lt t)

round-IsTable : (r : Round) (d : Daemon) → IsTable d.peers → IsTable (round r d).peers
unfolding round
round-IsTable r d t =
    release-IsTable r.at_end (connect r.accepted d).peers
      (Connected-IsTable r.accepted d (connect r.accepted d) (connect-Connected r.accepted d t) t)

-- how often an address was given
unfoldable pub grants : ℕ → List Lease → ℕ
grants a [] = 0
grants a (l ∷ ls) = let rest = grants a ls in if l.address == a then suc rest else rest

-- slot i is as it was, and its address was given to nobody
record Kept (i : ℕ) (d e : Daemon) : Type 0 where
  same_slot : slot e.peers i ≡ slot d.peers i
  not_given : grants (512 + i) e.written ≡ grants (512 + i) d.written

used_not_free : (p : Peer) (s : ℕ) → p.socket ≡ some s → is_free p ≡ false
used_not_free p s h = rw h refl

not_ending : (e : ℕ → Bool) (p : Peer) (s : ℕ) → p.socket ≡ some s → e s ≡ false → ends e p ≡ false
not_ending e p s h still = rw h still

given_other :
    (i k sock : ℕ) (ls : List Lease)
    → i ≢ k
    → grants (512 + i) (record { socket = sock; address = 512 + k } ∷ ls) ≡ grants (512 + i) ls
unfolding grants
given_other i k sock ls ne = ground arith

used_other :
    (ps : List Peer) (i k s : ℕ) → (slot ps i).socket ≡ some s → is_free (slot ps k) ≡ true → i ≢ k
used_other ps i k s used free same =
    false≢true (sym (used_not_free (slot ps k) s (rw same at used)) ∙ free)

connect-Kept :
    (i s : ℕ) (o : Option ℕ) (d e : Daemon)
    → Connected o d e
    → (slot d.peers i).socket ≡ some s
    → Kept i d e
unfolding grants
connect-Kept i s o d e (stays same w) used = record {
  same_slot = rw same refl;
  not_given = rw w refl;
}
connect-Kept i s o d e (gets sock k a lt free taken w) used = record {
  same_slot = rw taken (
      get_or_set_other d.peers k i (record (slot d.peers k) { socket = some sock })
        (used_other d.peers i k s used free));
  not_given = rw w (given_other i k sock d.written (used_other d.peers i k s used free));
}

round-Kept :
    (i s : ℕ) (r : Round) (d : Daemon)
    → IsTable d.peers
    → (slot d.peers i).socket ≡ some s
    → r.at_end s ≡ false
    → Kept i d (round r d)
unfolding round
round-Kept i s r d t used still =
    let k =
      connect-Kept i s r.accepted d (connect r.accepted d) (connect-Connected r.accepted d t)
        used in
    record {
      same_slot =
          slot-release r.at_end (connect r.accepted d).peers i
          ∙ rw (k.same_slot, not_ending r.at_end (slot d.peers i) s used still) refl;
      not_given = k.not_given;
    }

pub run-IsTable : (rs : List Round) (d : Daemon) → IsTable d.peers → IsTable (run rs d).peers
unfolding run
run-IsTable [] d t = t
run-IsTable (r ∷ rs) d t = round-IsTable r (run rs d) (run-IsTable rs d t)

init_from-slot :
    (n a i : ℕ) → i < n → (slot (init_from n a) i) ≡ record { socket = none; address = a + i }
unfolding init_from
init_from-slot zero a i lt = ground arith
init_from-slot (suc n) a zero lt = ground arith
init_from-slot (suc n) a (suc i) lt = init_from-slot n (suc a) i (omega arith) ∙ ground arith

pub start-IsTable : IsTable start.peers
unfolding init_peer_array init_from
start-IsTable = record {
  slots = refl;
  numbered = λ i lt. ap (λ (p : Peer). p.address) (init_from-slot 32 512 i lt);
}

-- no round of these finds the end of a socket
unfoldable pub lasts : ℕ → List Round → Bool
lasts s [] = true
lasts s (r ∷ rs) = let rest = lasts s rs in if r.at_end s then false else rest

run-Kept :
    (i s : ℕ) (rs : List Round) (d : Daemon)
    → IsTable d.peers
    → (slot d.peers i).socket ≡ some s
    → lasts s rs ≡ true
    → Kept i d (run rs d)
unfolding run lasts
run-Kept i s [] d t used l = record { same_slot = refl; not_given = refl }
run-Kept i s (r ∷ rs) d t used l =
    let k = run-Kept i s rs d t used (ground arith) in
    let k2 =
      round-Kept i s r (run rs d) (run-IsTable rs d t) (rw k.same_slot used) (ground arith) in
    record { same_slot = k2.same_slot ∙ k.same_slot; not_given = k2.not_given ∙ k.not_given }

-- A connection that holds a slot `i` of hcanaddressd, after any rounds from its start, keeps it in all
-- further rounds up to the one that finds the end of its stream, and the slot's address, 512 + i, is written
-- to no connection in them.
pub keeps_address :
    (before rs : List Round) (i s : ℕ)
    → (slot (run before start).peers i).socket ≡ some s
    → lasts s rs ≡ true
    → let d = run before start in
      let e = run rs d in
      (slot e.peers i ≡ slot d.peers i) × (grants (512 + i) e.written ≡ grants (512 + i) d.written)
keeps_address before rs i s used l =
    let k = run-Kept i s rs (run before start) (run-IsTable before start start-IsTable) used l in
    (k.same_slot, k.not_given)
