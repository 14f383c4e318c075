-- ===== src/Hub/Deliver.antt =====
-- hcand/main.c: how often an address stands in the table and in what is sent.
use hcan.Prelude.{
  ℕ, zero, suc, ◌≤◌, Bool, true, false, Option, none, some, List, [], ◌∷◌, ◌&&◌, ◌||◌,
  if◌then◌else◌, ◌==◌, ◌≡◌, ◌≢◌, refl, replicate, All, arith, inl, inr, Option-cases, Bool-cases,
}
use hcan.Hub.Table.{
  Address, Slot, addr_cmp, is_used, does_peer_exist, free_slot, put_peer, add_peer, clear_timeout,
  targets, deliver, find_or_add, handle_packet, sig_alarm, init_peers, Event, alarm, packet,
  handle_event, run,
}

-- whether a slot is in use for an address
abbrev pub holds : Address → Slot → Bool
holds a s = is_used s && addr_cmp s.addr a

unfoldable pub count : Address → List Slot → ℕ
count a [] = 0
count a (s ∷ ss) = let rest = count a ss in if holds a s then suc rest else rest

unfoldable pub occurs : Address → List Address → ℕ
occurs a [] = 0
occurs a (b ∷ bs) = let rest = occurs a bs in if addr_cmp b a then suc rest else rest

pub count-clear_timeout :
    (a : Address) (i : ℕ) (t : List Slot) → count a (clear_timeout i t) ≡ count a t
unfolding count clear_timeout
count-clear_timeout a i [] = refl
count-clear_timeout a zero (s ∷ ss) = refl
count-clear_timeout a (suc i) (s ∷ ss) = rw (count-clear_timeout a i ss)

pub count-put_peer :
    (a p : Address) (t : List Slot) (i : ℕ)
    → p.ip ≢ 0
    → free_slot t ≡ some i
    → count a (put_peer i p t) ≡ (if addr_cmp p a then suc (count a t) else count a t)
unfolding count put_peer free_slot
count-put_peer a p [] i nz h = ground arith
count-put_peer a p (s ∷ ss) i nz h = elim (Option-cases (free_slot ss)) [
  | inl none_left ↦ ground (arith, none_left)
  | inr (k, at) ↦ ground (arith, count-put_peer a p ss k nz at, at)
]

pub count-absent : (p : Address) (t : List Slot) → does_peer_exist p t ≡ none → count p t ≡ 0
unfolding count does_peer_exist
count-absent p [] h = refl
count-absent p (s ∷ ss) h = elim (Option-cases (does_peer_exist p ss)) [
  | inl absent ↦ ground (arith, count-absent p ss absent)
  | inr (k, at) ↦ ground (arith, at)
]

occurs-targets :
    (a p : Address) (t : List Slot)
    → occurs a (targets p t) ≡ (if addr_cmp a p then 0 else count a t)
unfolding count occurs targets
occurs-targets a p [] = ground arith
occurs-targets a p (s ∷ ss) = ground (arith, occurs-targets a p ss)

pub count-sig_alarm : (a : Address) (t : List Slot) → a.ip ≢ 0 → count a (sig_alarm t) ≤ count a t
unfolding count sig_alarm
count-sig_alarm a [] nz = ground arith
count-sig_alarm a (s ∷ ss) nz = ground (arith, count-sig_alarm a ss nz)

pub count-present :
    (p : Address) (t : List Slot) (i : ℕ) → p.ip ≢ 0 → does_peer_exist p t ≡ some i → 1 ≤ count p t
unfolding count does_peer_exist
count-present p [] i nz h = ground arith
count-present p (s ∷ ss) i nz h = elim (Option-cases (does_peer_exist p ss)) [
  | inl absent ↦ ground (arith, absent)
  | inr (k, at) ↦ ground (arith, count-present p ss k nz at, at)
]

count-addr_cmp : (p a : Address) (t : List Slot) → addr_cmp p a ≡ true → count a t ≡ count p t
unfolding count
count-addr_cmp p a [] e = refl
count-addr_cmp p a (s ∷ ss) e = ground (arith, count-addr_cmp p a ss e)

abbrev pub Distinct : List Slot → Type 0
Distinct t = (a : Address) → count a t ≤ 1

-- The slot that a packet gets: none, or one that is the only one of the sender.
pub data Place (p : Address) (t : List Slot) : Option ℕ × List Slot → Type 0 where
  full : count p t ≡ 0 → free_slot t ≡ none → Place p t (none, t)
  place :
      {i : ℕ} {u : List Slot}
      → ((a : Address) → count a u ≡ (if addr_cmp p a then 1 else count a t))
      → Place p t (some i, u)

pub find_or_add_place :
    (p : Address) (t : List Slot) → p.ip ≢ 0 → Distinct t → Place p t (find_or_add p t)
unfolding find_or_add add_peer
find_or_add_place p t nz d = elim (Option-cases (does_peer_exist p t)) [
  | inl absent ↦ elim (Option-cases (free_slot t)) [
    | inl none_left ↦
        rw (find_or_add, absent, add_peer, none_left) (full (count-absent p t absent) none_left)
    | inr (i, at) ↦
        rw (find_or_add, absent, add_peer, at)
          (place (λ a.
            ground
              (arith, count-put_peer a p t i nz at, count-absent p t absent, count-addr_cmp p a t)))
  ]
  | inr (i, at) ↦
      rw (find_or_add, at)
        (place (λ a. ground (arith, count-present p t i nz at, count-addr_cmp p a t, d p)))
]

pub deliver-Distinct :
    (p : Address) (id : ℕ) (t : List Slot) {r : Option ℕ × List Slot}
    → Distinct t
    → Place p t r
    → Distinct (deliver p id r).0
unfolding deliver
deliver-Distinct p id t d (full gone room) a = d a
deliver-Distinct p id t d (place {i} {u} at) a =
    ground (arith, count-clear_timeout a i u, at a, d a)

pub handle_packet-Distinct :
    (p : Address) (id : ℕ) (t : List Slot)
    → p.ip ≢ 0
    → Distinct t
    → Distinct (handle_packet p id t).0
unfolding handle_packet
handle_packet-Distinct p id t nz d = deliver-Distinct p id t d (find_or_add_place p t nz d)

count-sig_alarm_zero : (a : Address) (t : List Slot) → a.ip ≡ 0 → count a t ≡ 0
unfolding count
count-sig_alarm_zero a [] z = refl
count-sig_alarm_zero a (s ∷ ss) z = ground (arith, count-sig_alarm_zero a ss z)

sig_alarm-Distinct : (t : List Slot) → Distinct t → Distinct (sig_alarm t)
sig_alarm-Distinct t d a = elim (Bool-cases (a.ip == 0)) [
  | inl z ↦ ground (arith, count-sig_alarm_zero a (sig_alarm t))
  | inr nz ↦ ground (arith, count-sig_alarm a t, d a)
]

-- A packet comes from an address that is not 0.
abbrev pub HasSender : Event → Type 0
HasSender alarm = Unit
HasSender (packet p id) = p.ip ≢ 0

handle_event-Distinct :
    (e : Event) (t : List Slot) → HasSender e → Distinct t → Distinct (handle_event e t)
unfolding handle_event
handle_event-Distinct alarm t h d = sig_alarm-Distinct t d
handle_event-Distinct (packet p id) t h d = handle_packet-Distinct p id t h d

pub run-Distinct :
    (es : List Event) (t : List Slot) → All HasSender es → Distinct t → Distinct (run es t)
unfolding run
run-Distinct [] t h d = d
run-Distinct (e ∷ es) t (h, hs) d =
    run-Distinct es (handle_event e t) hs (handle_event-Distinct e t h d)

count-replicate : (a : Address) (n : ℕ) (s : Slot) → is_used s ≡ false → count a (replicate n s) ≡ 0
unfolding count
count-replicate a zero s free = refl
count-replicate a (suc n) s free = ground (arith, count-replicate a n s free)

count-init_peers : (a : Address) → count a init_peers ≡ 0
unfolding init_peers
count-init_peers a =
    count-replicate a 1024 (record { addr = record { ip = 0; port = 0 }; timeout = 60 }) refl

-- After any sequence of packets and alarms since the start of hcand, where each packet comes from an
-- address that is not 0, no address stands in two of the slots in use.
pub no_peer_twice :
    (es : List Event) → All HasSender es → (a : Address) → count a (run es init_peers) ≤ 1
no_peer_twice es h = run-Distinct es init_peers h (λ a. ground (arith, count-init_peers a))

addr_cmp_refl : (p : Address) → addr_cmp p p ≡ true
addr_cmp_refl p = ground arith

addr_cmp_sym : (p a : Address) → addr_cmp p a ≡ addr_cmp a p
addr_cmp_sym p a = ground arith

-- how often `a` is sent a packet of `p`, from the table before it and the table after it
unfoldable pub due : Address → Address → ℕ → List Slot → List Slot → ℕ
unfolding count
due p a id t next = if (id == 0) || (count p next == 0) || addr_cmp a p then 0 else count a t

deliver-due :
    (p a : Address) (id : ℕ) (t : List Slot) {r : Option ℕ × List Slot}
    → Place p t r
    → occurs a (deliver p id r).1 ≡ due p a id t (deliver p id r).0
unfolding due deliver occurs
deliver-due p a id t (full gone room) = ground arith
deliver-due p a id t (place {i} {u} at) = ground (
  arith,
  occurs-targets a p (clear_timeout i u),
  count-clear_timeout a i u,
  count-clear_timeout p i u,
  at a,
  at p,
  addr_cmp_sym p a,
  addr_cmp_refl p,
)

-- After any sequence of packets and alarms since the start of hcand, where each packet comes from an
-- address that is not 0, a packet of `p` that is not 0 is sent to an address `a` as often as `a` stands
-- in the table, which is at most once, if the identifier is not 0, `p` has a slot afterwards and `a` is
-- not `p`; in all other cases it is not sent to `a`.
pub each_other_peer_once :
    (es : List Event) (p a : Address) (id : ℕ)
    → All HasSender es
    → p.ip ≢ 0
    → (occurs a (handle_packet p id (run es init_peers)).1
        ≡ due p a id (run es init_peers) (handle_packet p id (run es init_peers)).0)
      × (count a (run es init_peers) ≤ 1)
unfolding handle_packet
each_other_peer_once es p a id h nz = (
  deliver-due p a id (run es init_peers)
      (find_or_add_place p (run es init_peers) nz (no_peer_twice es h)),
  no_peer_twice es h a,
)
