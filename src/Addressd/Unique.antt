-- ===== src/Addressd/Unique.antt =====
-- No connection holds two addresses of hcanaddressd.
use mathlib.Core.Bool.{false≢true}
use hcan.Prelude.{
  ◌+◌, if◌then◌else◌, ℕ, zero, suc, ◌<◌, ◌≡◌, ◌≢◌, ◌⊎◌, inl, inr, Bool, true, false, Option, none,
  some, List, [], ◌∷◌, set, length, arith, refl, sym, ◌∙◌, ◌==◌, ==_iff, Bool-cases,
}
use hcan.Addressd.State.{
  Peer, Round, Daemon, connect, ends, release, round, run, start, init_from, init_peer_array,
}
use hcan.Addressd.Leases.{
  slot, slot-release, get_or_set_at, get_or_set_other, IsTable, Connected, stays, gets,
  connect-Connected, run-IsTable, start-IsTable,
}

Unique : List Peer → Type 0
Unique ps = (i j s : ℕ) → (slot ps i).socket ≡ some s → (slot ps j).socket ≡ some s → i ≡ j

-- a slot that is used after the release was used before
kept_by_release :
    (b : Bool) (p : Peer) (s : ℕ)
    → (if b then record p { socket = none } else p).socket ≡ some s
    → p.socket ≡ some s
kept_by_release true p s h = ground arith
kept_by_release false p s h = h

release-Unique : (e : ℕ → Bool) (ps : List Peer) → Unique ps → Unique (release e ps)
unfolding Unique
release-Unique e ps u i j s hi hj =
    u i j s (kept_by_release (ends e (slot ps i)) (slot ps i) s (rw (slot-release e ps i) at hi))
      (kept_by_release (ends e (slot ps j)) (slot ps j) s (rw (slot-release e ps j) at hj))

abbrev has_socket : ℕ → Peer → Bool
has_socket s p = elim p.socket [ none ↦ false | some t ↦ t == s ]

-- a socket that no peer has
unfoldable pub unused : ℕ → List Peer → Bool
unused s [] = true
unused s (p ∷ ps) = let rest = unused s ps in if has_socket s p then false else rest

has_own : (p : Peer) (s : ℕ) → p.socket ≡ some s → has_socket s p ≡ true
has_own p s h = rw h (ground arith)

unused-slot : (s : ℕ) (ps : List Peer) → unused s ps ≡ true → (i : ℕ) → (slot ps i).socket ≢ some s
unfolding unused
unused-slot s [] u i h = ground arith
unused-slot s (p ∷ ps) u zero h = false≢true (rw (has_own p s h) at u)
unused-slot s (p ∷ ps) u (suc i) h = unused-slot s ps (ground arith) i h

-- where a socket of the new table stood
stood :
    (ps : List Peer) (k sock i s : ℕ)
    → k < length ps
    → (slot (set ps k (record (slot ps k) { socket = some sock })) i).socket ≡ some s
    → ((i ≡ k) × (s ≡ sock)) ⊎ ((slot ps i).socket ≡ some s)
stood ps k sock i s lt h = elim (Bool-cases (i == k)) [
  | inl same ↦
      let e = (==_iff i k).0 same in
      inl (
        e,
        same_socket
            (rw (e, get_or_set_at ps k (record (slot ps k) { socket = some sock }) lt) at h),
      )
  | inr other ↦
      inr (
        rw (get_or_set_other ps k i (record (slot ps k) { socket = some sock }) (ground arith)) at
          h)
]
  where
    same_socket : some sock ≡ some s → s ≡ sock
    same_socket h = ground arith

abbrev is_new : Option ℕ → List Peer → Bool
is_new none ps = true
is_new (some s) ps = unused s ps

connect-Unique :
    (o : Option ℕ) (d e : Daemon)
    → IsTable d.peers
    → Connected o d e
    → is_new o d.peers ≡ true
    → Unique d.peers
    → Unique e.peers
unfolding Unique
connect-Unique o d e t (stays same w) fresh u i j s hi hj = u i j s (rw same at hi) (rw same at hj)
connect-Unique o d e t (gets sock k a lt free taken w) new u i j s hi hj =
    elim (stood d.peers k sock i s inside (rw taken at hi)) [
      | inl (ik, es) ↦ elim (stood d.peers k sock j s inside (rw taken at hj)) [
        | inl (jk, es2) ↦ ik ∙ sym jk
        | inr old ↦ absurd (fresh j (rw es at old))
      ]
      | inr old ↦ elim (stood d.peers k sock j s inside (rw taken at hj)) [
        | inl (jk, es) ↦ absurd (fresh i (rw es at old))
        | inr old2 ↦ u i j s old old2
      ]
    ]
  where
    inside : k < length d.peers
    inside = rw t.slots lt

    fresh : (i : ℕ) → (slot d.peers i).socket ≢ some sock
    fresh = unused-slot sock d.peers (rw a at new)

-- each socket that accept gives is one that no peer has, as the system sees to for an open socket
unfoldable pub new_sockets : List Round → Bool
new_sockets [] = true
new_sockets (r ∷ rs) =
    let rest = new_sockets rs in if is_new r.accepted (run rs start).peers then rest else false

start_free : (n a i : ℕ) → (slot (init_from n a) i).socket ≡ none
unfolding init_from
start_free zero a i = refl
start_free (suc n) a zero = refl
start_free (suc n) a (suc i) = start_free n (suc a) i

start-Unique : Unique start.peers
unfolding Unique init_peer_array
start-Unique i j s hi hj = ground (arith, start_free 32 512 i)

run-Unique : (rs : List Round) → new_sockets rs ≡ true → Unique (run rs start).peers
unfolding run round new_sockets
run-Unique [] n = start-Unique
run-Unique (r ∷ rs) n =
    let t = run-IsTable rs start start-IsTable in
    release-Unique r.at_end (connect r.accepted (run rs start)).peers (
      connect-Unique r.accepted (run rs start) (connect r.accepted (run rs start)) t
        (connect-Connected r.accepted (run rs start) t) (ground arith)
        (run-Unique rs (ground arith)))

-- After any rounds from the start of hcanaddressd, where accept gives no socket that a peer has: the slots
-- have the addresses 512 to 543 in order, and a connection stands in one slot at most, so that it has one
-- address and no other connection has it.
pub one_address_each :
    (rs : List Round)
    → new_sockets rs ≡ true
    → let ps = (run rs start).peers in
      ((i : ℕ) → i < 32 → (slot ps i).address ≡ 512 + i)
      × ((i j s : ℕ) → (slot ps i).socket ≡ some s → (slot ps j).socket ≡ some s → i ≡ j)
unfolding Unique
one_address_each rs n = ((run-IsTable rs start start-IsTable).numbered, run-Unique rs n)
