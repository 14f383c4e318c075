-- ===== src/Canix/Conservation.antt =====
-- The receive queue of canix/canix.c loses no message that it accepts and makes none up.
use mathlib.Core.Option
use mathlib.Core.List.{Perm}
use mathlib.Core.List.Perm
use hcan.Prelude.{
  ℕ, zero, suc, ◌<◌, ◌≤◌, ◌≡◌, refl, ap, Bool, true, false, Option, none, some, List, [], ◌∷◌,
  arith, ltb, if◌then◌else◌, length, set, get_or, length-set, ◌==◌, ◌≢◌, Bool-cases, inl, inr,
}
use hcan.Canix.Queue.{
  Message, Slot, Queue, queue_size, rxq_size, first, first_bytes, stored, rxq_fetch_one,
  rxq_put_one, receive, empty_slot, read_message,
}

-- the messages in the queue
unfoldable pub contents : List Slot → List Message
contents [] = []
contents (s ∷ ss) = if s.used then s.message ∷ contents ss else contents ss

pub rxq_size-contents : (ss : List Slot) → rxq_size ss ≡ length (contents ss)
unfolding rxq_size contents
rxq_size-contents [] = refl
rxq_size-contents (s ∷ ss) = ground (arith, rxq_size-contents ss)

-- The searches find a slot where there is one.
first_free : (ss : List Slot) → rxq_size ss < length ss → (i : ℕ) × (first false ss ≡ some i)
unfolding rxq_size first
first_free [] h = absurd (omega arith)
first_free (s ∷ ss) h = elim (Bool-cases s.used) [
  | inl busy ↦ let (i, e) = first_free ss (ground arith) in (suc i, rw (busy, e))
  | inr free ↦ (0, rw free)
]

first_used : (ss : List Slot) → rxq_size ss ≢ 0 → (i : ℕ) × (first true ss ≡ some i)
unfolding rxq_size first
first_used [] h = absurd (h refl)
first_used (s ∷ ss) h = elim (Bool-cases s.used) [
  | inl busy ↦ (0, rw busy)
  | inr free ↦ let (i, e) = first_used ss (ground arith) in (suc i, rw (free, e))
]

map-suc_inv :
    (o : Option ℕ) (i : ℕ) → Option.map suc o ≡ some i → (j : ℕ) × (o ≡ some j) × (i ≡ suc j)
map-suc_inv none i e = cc
map-suc_inv (some j) i e = (j, refl, ground arith)

put-perm :
    (ss : List Slot) (i : ℕ) (m : Message)
    → first false ss ≡ some i
    → Perm (contents (set ss i (record { used = true; message = m }))) (m ∷ contents ss)
unfolding contents first
put-perm [] i m e = cc
put-perm (s ∷ ss) i m e = elim (Bool-cases s.used) [
  | inl busy ↦
      let (j, e', eq) = map-suc_inv (first false ss) i (rw busy at e) in
      rw (eq, busy) (Perm.trans (Perm.cons _ (put-perm ss j m e')) (Perm.swap _ _ _))
  | inr free ↦ let eq : i ≡ 0 = ground (arith, e, free) in rw (eq, free) (Perm.refl _)
]

take-perm :
    (ss : List Slot) (i : ℕ)
    → first true ss ≡ some i
    → let s = get_or ss i empty_slot in
      Perm (contents ss) (s.message ∷ contents (set ss i (record s { used = false })))
unfolding contents first
take-perm [] i e = cc
take-perm (s ∷ ss) i e = elim (Bool-cases s.used) [
  | inl busy ↦ let eq : i ≡ 0 = ground (arith, e, busy) in rw (eq, busy) (Perm.refl _)
  | inr free ↦
      let (j, e', eq) = map-suc_inv (first true ss) i (rw free at e) in
      rw (eq, free) (take-perm ss j e')
]

unfoldable pub room : Queue → Bool
room q = ltb (rxq_size q.slots) queue_size

first_bytes_all : (n : ℕ) (bs : List ℕ) → length bs ≤ n → first_bytes n bs ≡ bs
unfolding first_bytes
first_bytes_all zero [] le = refl
first_bytes_all zero (b ∷ bs) le = absurd (omega arith)
first_bytes_all (suc n) [] le = refl
first_bytes_all (suc n) (b ∷ bs) le = ap (λ r. b ∷ r) (first_bytes_all n bs (omega arith))

-- With a free slot a message of at most eight bytes joins the contents and is counted as received.
pub receive_room :
    (q : Queue) (m : Message)
    → length q.slots ≡ queue_size
    → length m.bytes ≤ 8
    → room q ≡ true
    → Perm (contents (receive q m).slots) (m ∷ contents q.slots)
unfolding receive room rxq_put_one
receive_room q m l short r =
    let (i, e) = first_free q.slots (ground arith) in
    rw (r, e, first_bytes_all 8 m.bytes short) (put-perm q.slots i m e)

pub receive_full : (q : Queue) (m : Message) → room q ≡ false → (receive q m).slots ≡ q.slots
unfolding receive room
receive_full q m r = ground arith

pub length-receive : (q : Queue) (m : Message) → length (receive q m).slots ≡ length q.slots
unfolding receive
length-receive q m =
    ground
      (arith, length-set q.slots (rxq_put_one q.slots) (record { used = true; message = stored m }))

pub read_none : (q : Queue) → rxq_size q.slots ≡ 0 → read_message q ≡ (q, none)
unfolding read_message
read_none q e = ground arith

pub read_some :
    (q : Queue)
    → rxq_size q.slots ≢ 0
    → (m : Message) × ((read_message q).1 ≡ some m)
      × Perm (contents q.slots) (m ∷ contents (read_message q).0.slots)
      × (length (read_message q).0.slots ≡ length q.slots)
unfolding read_message rxq_fetch_one
read_some q h =
    let (i, e) = first_used q.slots h in
    let s = get_or q.slots i empty_slot in
    let busy : (rxq_size q.slots == 0) ≡ false = ground arith in
    (
      s.message,
      rw (busy, e),
      rw (busy, e) (take-perm q.slots i e),
      rw (busy, e) (length-set q.slots i (record s { used = false })),
    )
