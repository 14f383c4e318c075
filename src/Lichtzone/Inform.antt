-- ===== src/Lichtzone/Inform.antt =====
-- What a light zone (lichtzone.c) tells its action groups, and what hearing that does to itself.
use hcan.Prelude.{ℕ, ◌≡◌, Bool, true, false, List, [], ◌∷◌, arith, if◌then◌else◌, ◌==◌}
use hcan.Board.{Sent, hi, multicast_control}
use hcan.Lichtzone.State.{
  off, on, on_ext, Lichtzone, power_group_on, power_group_off, setup_timer, group_on_loop,
  group_off_loop, is_off, inform_one, inform_loop, inform_action_groups,
}

-- The zone but for its timer.
abbrev pub Keeps : Lichtzone → Lichtzone → Type 0
Keeps p q =
    (q.config ≡ p.config)
    × (q.state ≡ p.state)
    × (q.exton_taster_down_counter ≡ p.exton_taster_down_counter)
    × (q.exton_sec_counter ≡ p.exton_sec_counter)

group_on-Keeps :
    (gs : List ℕ) (n : ℕ) (p : Lichtzone)
    → is_off p.state ≡ false
    → Keeps p (group_on_loop gs n p)
      × ((group_on_loop gs n p).board ≡ p.board)
      × (p.state ≡ on_ext → (group_on_loop gs n p).timer_counter ≡ p.timer_counter)
unfolding group_on_loop
group_on-Keeps [] n p lit = ground arith
group_on-Keeps (g ∷ gs) n p lit = ground (
  arith,
  group_on-Keeps gs n p,
  group_on-Keeps gs n (setup_timer (record p { state = on })),
  group_on-Keeps gs n (record p { state = on }),
)

group_off-Keeps :
    (gs : List ℕ) (n : ℕ) (p : Lichtzone)
    → p.state ≡ off
    → Keeps p (group_off_loop gs n p)
      × ((group_off_loop gs n p).board ≡ p.board)
      × (p.timer_counter ≡ 0 → (group_off_loop gs n p).timer_counter ≡ 0)
unfolding group_off_loop
group_off-Keeps [] n p dark = ground arith
group_off-Keeps (g ∷ gs) n p dark = ground (arith, group_off-Keeps gs n p)

-- the frame for one action group
abbrev pub announcement : ℕ → Bool → ℕ → Sent
announcement self dark g = record {
  frame = record {
    src = self;
    dst = multicast_control;
    proto = 1;
    size = 3;
    bytes = 5 ∷ (if dark then power_group_off else power_group_on) ∷ g ∷ [];
  };
  prio = hi;
}

-- one frame for each group but 255, onto those sent before
unfoldable pub announcements : ℕ → Bool → List ℕ → List Sent → List Sent
announcements self dark [] sent = sent
announcements self dark (g ∷ gs) sent =
    announcements self dark gs (if g == 255 then sent else announcement self dark g ∷ sent)

abbrev heard : Lichtzone → Sent → Lichtzone
heard p s = record p { board = record p.board { sent = s ∷ p.board.sent } }

inform_one-Keeps :
    (p : Lichtzone) (g : ℕ)
    → Keeps p (inform_one p g)
      × ((inform_one p g).board
          ≡ record p.board { sent = announcement p.board.self (is_off p.state) g ∷ p.board.sent })
      × (p.state ≡ off → p.timer_counter ≡ 0 → (inform_one p g).timer_counter ≡ 0)
      × (p.state ≡ on_ext → (inform_one p g).timer_counter ≡ p.timer_counter)
unfolding inform_one
inform_one-Keeps p g =
    let dark = heard p (announcement p.board.self true g) in
    let lit = heard p (announcement p.board.self false g) in
    ground (
      arith,
      group_off-Keeps p.config.action_gruppen g dark,
      group_on-Keeps p.config.action_gruppen g lit,
    )

inform_loop-Keeps :
    (gs : List ℕ) (p : Lichtzone)
    → Keeps p (inform_loop gs p)
      × ((inform_loop gs p).board
          ≡ record p.board { sent = announcements p.board.self (is_off p.state) gs p.board.sent })
      × (p.state ≡ off → p.timer_counter ≡ 0 → (inform_loop gs p).timer_counter ≡ 0)
      × (p.state ≡ on_ext → (inform_loop gs p).timer_counter ≡ p.timer_counter)
unfolding inform_loop announcements
inform_loop-Keeps [] p = ground arith
inform_loop-Keeps (g ∷ gs) p =
    ground
      (arith, inform_loop-Keeps gs p, inform_one-Keeps p g, inform_loop-Keeps gs (inform_one p g))

-- A light zone tells each of its action groups but 255, in order and once, whether it is off, with high
-- priority. Hearing its own frames it keeps its state, its configuration and its count of presses;
-- a zone that is off with its timer at 0, or in the extended mode, keeps its timer too.
pub inform_action_groups-Keeps :
    (p : Lichtzone)
    → Keeps p (inform_action_groups p)
      × ((inform_action_groups p).board ≡ record p.board {
        sent = announcements p.board.self (is_off p.state) p.config.action_gruppen p.board.sent;
      })
      × (p.state ≡ off → p.timer_counter ≡ 0 → (inform_action_groups p).timer_counter ≡ 0)
      × (p.state ≡ on_ext → (inform_action_groups p).timer_counter ≡ p.timer_counter)
unfolding inform_action_groups
inform_action_groups-Keeps p = inform_loop-Keeps p.config.action_gruppen p
