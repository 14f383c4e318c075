-- ===== src/Hub/Expiry.antt =====
-- hcand/main.c: how long an address stays in the table without a packet from it.
use hcan.Prelude.{
  ℕ, zero, suc, ◌+◌, ◌≤◌, true, false, some, List, [], ◌∷◌, if◌then◌else◌, leb, ◌≡◌, ◌≢◌, refl, All,
  arith, inl, inr, Option-cases, Bool-cases,
}
use hcan.Hub.Table.{
  Address, Slot, addr_cmp, is_used, does_peer_exist, free_slot, put_peer, add_peer, clear_timeout,
  find_or_add, deliver, Event, handle_packet, sig_alarm, init_peers, run,
}
use hcan.Hub.Deliver.{
  holds, count, Distinct, count-absent, HasSender, no_peer_twice, count-sig_alarm,
}

-- Each slot in use for `p` has the timeout `k`.
abbrev HasTimeout : Address → ℕ → Slot → Type 0
HasTimeout p k s = holds p s ≡ true → s.timeout ≡ k

absent-HasTimeout : (p : Address) (k : ℕ) (t : List Slot) → count p t ≡ 0 → All (HasTimeout p k) t
unfolding count
absent-HasTimeout p k [] gone = tt
absent-HasTimeout p k (s ∷ ss) gone = elim (Bool-cases (holds p s)) [
  | inl held ↦ ground (arith, held)
  | inr other ↦
      (λ held. ground (arith, other, held), absent-HasTimeout p k ss (ground (arith, other, gone)))
]

found_first :
    (p : Address) (s : Slot) (ss : List Slot)
    → does_peer_exist p (s ∷ ss) ≡ some 0
    → addr_cmp p s.addr ≡ true
unfolding does_peer_exist
found_first p s ss at = elim (Option-cases (does_peer_exist p ss)) [
  | inl none_left ↦ ground (arith, none_left)
  | inr (k, later) ↦ ground (arith, later)
]

found_later :
    (p : Address) (s : Slot) (ss : List Slot) (i : ℕ)
    → does_peer_exist p (s ∷ ss) ≡ some (suc i)
    → (addr_cmp p s.addr ≡ false) × (does_peer_exist p ss ≡ some i)
unfolding does_peer_exist
found_later p s ss i at = elim (Option-cases (does_peer_exist p ss)) [
  | inl none_left ↦ ground (arith, none_left)
  | inr (k, later) ↦ ground (arith, later)
]

free_first : (s : Slot) (ss : List Slot) → free_slot (s ∷ ss) ≡ some 0 → is_used s ≡ false
unfolding free_slot
free_first s ss at = elim (Option-cases (free_slot ss)) [
  | inl none_left ↦ ground (arith, none_left)
  | inr (k, later) ↦ ground (arith, later)
]

free_later :
    (s : Slot) (ss : List Slot) (i : ℕ) → free_slot (s ∷ ss) ≡ some (suc i) → free_slot ss ≡ some i
unfolding free_slot
free_later s ss i at = elim (Option-cases (free_slot ss)) [
  | inl none_left ↦ ground (arith, none_left)
  | inr (k, later) ↦ ground (arith, later)
]

known-HasTimeout :
    (p : Address) (t : List Slot) (i : ℕ)
    → p.ip ≢ 0
    → count p t ≤ 1
    → does_peer_exist p t ≡ some i
    → All (HasTimeout p 0) (clear_timeout i t)
unfolding count clear_timeout
known-HasTimeout p [] i nz d at = tt
known-HasTimeout p (s ∷ ss) zero nz d at =
    (λ held. refl, absent-HasTimeout p 0 ss (ground (arith, found_first p s ss at)))
known-HasTimeout p (s ∷ ss) (suc i) nz d at = (
  λ held. ground (arith, found_later p s ss i at, held),
  known-HasTimeout p ss i nz (ground arith) (found_later p s ss i at).1,
)

added-HasTimeout :
    (p : Address) (t : List Slot) (i : ℕ)
    → p.ip ≢ 0
    → count p t ≡ 0
    → free_slot t ≡ some i
    → All (HasTimeout p 0) (clear_timeout i (put_peer i p t))
unfolding count put_peer clear_timeout
added-HasTimeout p [] i nz gone at = tt
added-HasTimeout p (s ∷ ss) zero nz gone at =
    (λ held. refl, absent-HasTimeout p 0 ss (ground arith))
added-HasTimeout p (s ∷ ss) (suc i) nz gone at =
    (λ held. ground (arith, held), added-HasTimeout p ss i nz (ground arith) (free_later s ss i at))

handle_packet-HasTimeout :
    (p : Address) (id : ℕ) (t : List Slot)
    → p.ip ≢ 0
    → Distinct t
    → All (HasTimeout p 0) (handle_packet p id t).0
unfolding handle_packet find_or_add add_peer deliver
handle_packet-HasTimeout p id t nz d = elim (Option-cases (does_peer_exist p t)) [
  | inl absent ↦ elim (Option-cases (free_slot t)) [
    | inl none_left ↦
        rw (handle_packet, find_or_add, absent, add_peer, none_left)
          (absent-HasTimeout p 0 t (count-absent p t absent))
    | inr (i, at) ↦
        rw (handle_packet, find_or_add, absent, add_peer, at)
          (added-HasTimeout p t i nz (count-absent p t absent) at)
  ]
  | inr (i, at) ↦ rw (handle_packet, find_or_add, at) (known-HasTimeout p t i nz (d p) at)
]

abbrev pub alarms : ℕ → List Slot → List Slot
alarms zero t = t
alarms (suc n) t = alarms n (sig_alarm t)

sig_alarm-HasTimeout :
    (p : Address) (k : ℕ) (t : List Slot)
    → p.ip ≢ 0
    → All (HasTimeout p k) t
    → All (HasTimeout p (suc k)) (sig_alarm t)
unfolding sig_alarm
sig_alarm-HasTimeout p k [] nz h = tt
sig_alarm-HasTimeout p k (s ∷ ss) nz (h, hs) =
    (λ held. ground (arith, h, held), sig_alarm-HasTimeout p k ss nz hs)

count-one_alarm :
    (p : Address) (k : ℕ) (t : List Slot)
    → p.ip ≢ 0
    → All (HasTimeout p k) t
    → count p (sig_alarm t) ≡ (if leb (suc k) 60 then count p t else 0)
unfolding sig_alarm count
count-one_alarm p k [] nz h = ground arith
count-one_alarm p k (s ∷ ss) nz (h, hs) = ground (arith, count-one_alarm p k ss nz hs, h)

absent_alarms :
    (p : Address) (n : ℕ) (t : List Slot) → p.ip ≢ 0 → count p t ≡ 0 → count p (alarms n t) ≡ 0
absent_alarms p zero t nz gone = gone
absent_alarms p (suc n) t nz gone =
    absent_alarms p n (sig_alarm t) nz (ground (arith, count-sig_alarm p t nz, gone))

count-alarms :
    (p : Address) (n k : ℕ) (t : List Slot)
    → p.ip ≢ 0
    → k ≤ 60
    → All (HasTimeout p k) t
    → count p (alarms n t) ≡ (if leb (k + n) 60 then count p t else 0)
count-alarms p zero k t nz le h = ground arith
count-alarms p (suc n) k t nz le h = elim (Bool-cases (leb (suc k) 60)) [
  | inl more ↦ ground (
    arith,
    count-alarms p n (suc k) (sig_alarm t) nz,
    sig_alarm-HasTimeout p k t nz h,
    count-one_alarm p k t nz h,
  )
  | inr over ↦ ground (arith, absent_alarms p n (sig_alarm t) nz, count-one_alarm p k t nz h)
]

-- After any sequence of packets and alarms since the start of hcand, where each packet comes from an
-- address that is not 0, a peer `p` that has a slot after its packet stays in the table for 60 alarms
-- without a packet of any peer, and is in it no longer after 61 alarms or more.
pub peer_expires :
    (es : List Event) (p : Address) (id n : ℕ)
    → All HasSender es
    → p.ip ≢ 0
    → count p (handle_packet p id (run es init_peers)).0 ≡ 1
    → count p (alarms n (handle_packet p id (run es init_peers)).0) ≡ (if leb n 60 then 1 else 0)
peer_expires es p id n h nz one = ground (
  arith,
  count-alarms p n 0 (handle_packet p id (run es init_peers)).0 nz (ground arith)
      (handle_packet-HasTimeout p id (run es init_peers) nz (no_peer_twice es h)),
  one,
)
