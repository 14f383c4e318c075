-- ===== src/Schalter/Debounce.antt =====
-- What the debouncing of a switch lets through (schalter.c).
use hcan.Prelude.{ℕ, suc, ◌≤◌, ◌≡◌, Bool, true, false, List, [], ◌∷◌, arith, refl, not}
use hcan.Schalter.State.{Schalter, edge_of, send_message, timer_handler}

-- calls with the level of each, the last one first
unfoldable pub run : List Bool → Schalter → Schalter
run [] p = p
run (s ∷ ss) p = timer_handler s (run ss p)

-- the samples with one level
abbrev pub occurs : Bool → List Bool → ℕ
occurs b [] = 0
occurs true (true ∷ ss) = suc (occurs true ss)
occurs true (false ∷ ss) = occurs true ss
occurs false (true ∷ ss) = occurs false ss
occurs false (false ∷ ss) = suc (occurs false ss)

record Counted (n : ℕ) (b : Bool) (p q : Schalter) : Type 0 where
  same_config : q.config ≡ p.config
  same_board : q.board ≡ p.board
  same_edge : q.last_edge ≡ edge_of (not b)
  counted : q.new_state ≡ n

one_more :
    (n : ℕ) (b : Bool) (p q : Schalter)
    → Counted n b p q
    → n ≤ 1
    → Counted (suc n) b p (timer_handler b q)
unfolding timer_handler
one_more n true p q c le = ground arith
one_more n false p q c le = ground arith

no_more :
    (n : ℕ) (b : Bool) (p q : Schalter)
    → Counted n b p q
    → n ≤ 2
    → Counted n b p (timer_handler (not b) q)
unfolding timer_handler
no_more n true p q c le = ground arith
no_more n false p q c le = ground arith

run-Counted :
    (b : Bool) (ss : List Bool) (p : Schalter)
    → p.last_edge ≡ edge_of (not b)
    → p.new_state ≡ 0
    → occurs b ss ≤ 2
    → Counted (occurs b ss) b p (run ss p)
unfolding run
run-Counted b [] p e z le = record {
  same_config = refl;
  same_board = refl;
  same_edge = e;
  counted = z;
}
run-Counted true (true ∷ ss) p e z le =
    one_more (occurs true ss) true p (run ss p) (run-Counted true ss p e z (omega arith))
      (omega arith)
run-Counted true (false ∷ ss) p e z le =
    no_more (occurs true ss) true p (run ss p) (run-Counted true ss p e z le) le
run-Counted false (true ∷ ss) p e z le =
    no_more (occurs false ss) false p (run ss p) (run-Counted false ss p e z le) le
run-Counted false (false ∷ ss) p e z le =
    one_more (occurs false ss) false p (run ss p) (run-Counted false ss p e z (omega arith))
      (omega arith)

third :
    (b : Bool) (p q : Schalter)
    → Counted 2 b p q
    → ((timer_handler b q).board ≡ (send_message b p).board)
      × ((timer_handler b q).last_edge ≡ edge_of b)
      × ((timer_handler b q).new_state ≡ 0)
unfolding timer_handler send_message
third true p q c = ground arith
third false p q c = ground arith

-- A switch that was last sent as not `b`, with its counter at 0: up to the second sample that is `b` nothing
-- is sent, and the third one, however many other samples lie between the three, sends `b` once and sets
-- the counter to 0 again, so that the same holds for not `b`.
pub third_sample_sends :
    (b : Bool) (ss : List Bool) (p : Schalter)
    → p.last_edge ≡ edge_of (not b)
    → p.new_state ≡ 0
    → occurs b ss ≡ 2
    → let q = run (b ∷ ss) p in
      ((run ss p).board ≡ p.board)
      × (q.board ≡ (send_message b p).board)
      × (q.last_edge ≡ edge_of b)
      × (q.new_state ≡ 0)
unfolding run
third_sample_sends b ss p e z two =
    let c = run-Counted b ss p e z (omega arith) in
    let (sent, edge, counter) = third b p (run ss p) (rw two at c) in
    (c.same_board, sent, edge, counter)
