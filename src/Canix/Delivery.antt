-- ===== src/Canix/Delivery.antt =====
-- The receive queue of canix/canix.c over any interleaving of interrupts and reads.
use mathlib.Core.List.{Perm, perm_middle}
use mathlib.Core.List.Perm
use hcan.Prelude.{
  ◌+◌, ◌%◌, ◌^◌, ◌≤◌, ◌≡◌, refl, Option, none, some, List, [], ◌∷◌, ◌++◌, arith, if◌then◌else◌,
  length, All, ◌==◌, Bool-cases, inl, inr,
}
use hcan.Canix.Queue.{Message, Slot, Queue, queue_size, rxq_size, receive, read_message, init_slots}
use hcan.Canix.Conservation.{
  contents, room, receive_room, receive_full, length-receive, read_none, read_some,
}

-- A message arrives at the interrupt, or the main loop reads one.
pub data Event : Type 0 where
  arrives : Message → Event
  reads : Event

-- The queue with its history: the messages that found room, those that did not, those read.
pub record History : Type 0 where
  pub queue : Queue
  pub accepted : List Message
  pub refused : List Message
  pub delivered : List Message

-- a message of at most eight bytes, as CAN frames have
unfoldable pub IsShort : Event → Type 0
IsShort (arrives m) = length m.bytes ≤ 8
IsShort reads = Unit

abbrev add : Option Message → List Message → List Message
add none ms = ms
add (some m) ms = m ∷ ms

unfoldable pub step : History → Event → History
step t (arrives m) =
    let t' = record t { queue = receive t.queue m } in
    if room t.queue
    then record t' { accepted = m ∷ t.accepted }
    else record t' { refused = m ∷ t.refused }
step t reads = record t {
  queue = (read_message t.queue).0;
  delivered = add (read_message t.queue).1 t.delivered;
}

unfoldable pub run : History → List Event → History
run t [] = t
run t (e ∷ es) = run (step t e) es

-- canix_init and the counters at power-up
unfoldable pub start : List Slot → History
start ss = record {
  queue = record { slots = init_slots ss; received = 0; lost = 0 };
  accepted = [];
  refused = [];
  delivered = [];
}

pub record Conserves (t : History) : Type 0 where
  pub slots : length t.queue.slots ≡ queue_size
  pub messages : Perm t.accepted (t.delivered ++ contents t.queue.slots)
  pub received : t.queue.received ≡ length t.accepted % 2 ^ 32
  pub lost : t.queue.lost ≡ length t.refused % 2 ^ 32

receive_counts :
    (q : Queue) (m : Message)
    → ((receive q m).received ≡ (if room q then (q.received + 1) % 2 ^ 32 else q.received))
      × ((receive q m).lost ≡ (if room q then q.lost else (q.lost + 1) % 2 ^ 32))
unfolding receive room
receive_counts q m = ground arith

read_counts :
    (q : Queue) → ((read_message q).0.received ≡ q.received) × ((read_message q).0.lost ≡ q.lost)
unfolding read_message
read_counts q = ground arith

arrives-Conserves :
    (t : History) (m : Message) → length m.bytes ≤ 8 → Conserves t → Conserves (step t (arrives m))
unfolding step
arrives-Conserves t m short c = elim (Bool-cases (room t.queue)) [
  | inl fits ↦ rw fits (record {
    slots = ground (arith, length-receive t.queue m);
    messages = Perm.trans (Perm.cons m c.messages) (
        Perm.trans (Perm.symm (perm_middle t.delivered (contents t.queue.slots))) (
          Perm.append (Perm.refl t.delivered)
            (Perm.symm (receive_room t.queue m c.slots short fits))));
    received = ground (arith, receive_counts t.queue m);
    lost = ground (arith, receive_counts t.queue m);
  })
  | inr full ↦ rw full (record {
    slots = ground (arith, length-receive t.queue m);
    messages = rw (receive_full t.queue m full) c.messages;
    received = ground (arith, receive_counts t.queue m);
    lost = ground (arith, receive_counts t.queue m);
  })
]

reads-Conserves : (t : History) → Conserves t → Conserves (step t reads)
unfolding step
reads-Conserves t c = elim (Bool-cases (rxq_size t.queue.slots == 0)) [
  | inl e ↦
      rw (read_none t.queue (ground arith))
        (record { slots = c.slots; messages = c.messages; received = c.received; lost = c.lost })
  | inr ne ↦
      let (m, got, perm, len) = read_some t.queue (ground arith) in
      record {
        slots = ground (arith, len);
        messages = rw got (
            Perm.trans c.messages
              (Perm.trans (Perm.append (Perm.refl t.delivered) perm) (perm_middle t.delivered _)));
        received = ground (arith, read_counts t.queue);
        lost = ground (arith, read_counts t.queue);
      }
]

run-Conserves :
    (t : History) (es : List Event) → All IsShort es → Conserves t → Conserves (run t es)
unfolding run IsShort
run-Conserves t [] a c = c
run-Conserves t (arrives m ∷ es) (short, a) c =
    run-Conserves (step t (arrives m)) es a (arrives-Conserves t m short c)
run-Conserves t (reads ∷ es) (short, a) c = run-Conserves (step t reads) es a (reads-Conserves t c)

contents-init : (ss : List Slot) → contents (init_slots ss) ≡ []
unfolding contents init_slots
contents-init [] = refl
contents-init (s ∷ ss) = contents-init ss

length-init : (ss : List Slot) → length (init_slots ss) ≡ length ss
unfolding init_slots
length-init [] = refl
length-init (s ∷ ss) = ground (arith, length-init ss)

start-Conserves : (ss : List Slot) → length ss ≡ queue_size → Conserves (start ss)
unfolding start
start-Conserves ss h = record {
  slots = ground (arith, length-init ss);
  messages = rw (contents-init ss) (Perm.refl []);
  received = refl;
  lost = refl;
}

contents-le : (ss : List Slot) → length (contents ss) ≤ length ss
unfolding contents
contents-le [] = omega arith
contents-le (s ∷ ss) = ground (arith, contents-le ss)

-- From the start, over any interleaving of arrivals of messages of at most eight bytes and reads, with
-- the array of 12 slots: the messages that found room are, each as often, those delivered and those still queued, at most 12
-- are queued, and the two counters count the messages that found room and the others, mod 2^32.
pub queue_conserves :
    (ss : List Slot) (es : List Event)
    → length ss ≡ queue_size
    → All IsShort es
    → let t = run (start ss) es in
      Perm t.accepted (t.delivered ++ contents t.queue.slots)
      × (length (contents t.queue.slots) ≤ queue_size)
      × (t.queue.received ≡ length t.accepted % 2 ^ 32)
      × (t.queue.lost ≡ length t.refused % 2 ^ 32)
queue_conserves ss es h short =
    let t = run (start ss) es in
    let c = run-Conserves (start ss) es short (start-Conserves ss h) in
    (c.messages, omega (arith, contents-le t.queue.slots, c.slots), c.received, c.lost)
