-- ===== src/Timeservice/Alone.antt =====
-- A time service that hears no lower level (timeservice.c): when it takes over, and how often it sends.
use native.Mathlib.Nat.{suc-mod, mod_self, mod-eq_of_lt, mod-lt}
use hcan.Prelude.{
  Bool, ◌&&◌, ◌∙◌, ℕ, suc, ◌+◌, ◌-◌, ◌%◌, ◌≤◌, ◌≡◌, List, [], ◌∷◌, arith, length, if◌then◌else◌,
  ltb, leb, ◌==◌, inl, inr, Bool-cases, ==_iff,
}
use hcan.Board.{low}
use hcan.Canix.Clock.{Clock}
use hcan.Timeservice.State.{Timeservice, timer_handler, date_frame, time_frame}

-- the seconds with the clock of each, the last one first
unfoldable pub alone : List Clock → Timeservice → Timeservice
alone [] p = p
alone (c ∷ cs) p = timer_handler c (alone cs p)

-- a counter from 0 to k
next_mod : (m k : ℕ) → (m + 1) % (k + 1) ≡ (if m % (k + 1) == k then 0 else m % (k + 1) + 1)
next_mod m k = elim (Bool-cases (m % (k + 1) == k)) [
  | inl last ↦ rw (last, wrap, (==_iff (m % (k + 1)) k).0 last) (mod_self (k + 1))
  | inr before ↦
      rw (before, wrap) (mod-eq_of_lt (ground (arith, mod-lt m {m = k + 1} (omega arith))))
]
  where
    wrap : (m + 1) % (k + 1) ≡ (m % (k + 1) + 1) % (k + 1)
    wrap = ground (arith, suc-mod m (k + 1))

-- the seconds since the service leads, in its interval; 0 before
abbrev ago : ℕ → ℕ → ℕ → ℕ
ago n t k = if ltb n t then 0 else (n + 1 - t) % (k + 1)

next_second :
    (n t k : ℕ)
    → 1 ≤ t
    → (if leb t (suc n) then if ago n t k == k then 0 else ago n t k + 1 else ago n t k)
      ≡ ago (suc n) t k
next_second n t k le = ground (arith, next_mod (n + 1 - t) k)

-- the counter of the seconds without a time frame, which stops at 255
abbrev capped : ℕ → ℕ
capped n = if ltb n 255 then n else 255

abbrev next_capped : ℕ → ℕ
next_capped n = if ltb n 255 then n + 1 else n

leads_at : (n t : ℕ) → t ≤ 255 → leb t (next_capped (capped n)) ≡ leb t (suc n)
leads_at n t le = ground arith

ago_at :
    (n t k : ℕ) → leb t (suc n) && (ago n t k == k) ≡ leb t (suc n) && ((suc n - t) % (k + 1) == k)
ago_at n t k = ground (arith, mod-eq_of_lt {n = 0} {m = k + 1} (omega arith))

ago_range : (n t k : ℕ) → ago n t k ≤ k
ago_range n t k = ground (arith, mod-lt (n + 1 - t) {m = k + 1} (omega arith))

-- the counters after n seconds
record Counted (n : ℕ) (p q : Timeservice) : Type 0 where
  same_config : q.config ≡ p.config
  same_self : q.board.self ≡ p.board.self
  received : q.last_time_frame_received ≡ capped n
  sent_ago : q.last_time_frame_sent ≡ ago n p.config.takeover_time p.config.interval

-- A service that starts, with bytes for its times and a takeover time that is not 0.
pub record Fresh (p : Timeservice) : Type 0 where
  pub not_received : p.last_time_frame_received ≡ 0
  pub not_sent : p.last_time_frame_sent ≡ 0
  pub some_takeover : 1 ≤ p.config.takeover_time
  pub byte_takeover : p.config.takeover_time ≤ 255
  pub byte_interval : p.config.interval ≤ 255

module _ (c : Clock) (p : Timeservice) where
  handler_same :
      ((timer_handler c p).config ≡ p.config) × ((timer_handler c p).board.self ≡ p.board.self)
  unfolding timer_handler
  handler_same = ground arith

  handler_received :
      (timer_handler c p).last_time_frame_received ≡ next_capped p.last_time_frame_received
  unfolding timer_handler
  handler_received = ground arith

  handler_sent_ago :
      p.config.interval ≤ 255
      → p.last_time_frame_sent ≤ p.config.interval
      → (timer_handler c p).last_time_frame_sent ≡ (
          if leb p.config.takeover_time (next_capped p.last_time_frame_received)
          then if p.last_time_frame_sent == p.config.interval then 0 else p.last_time_frame_sent + 1
          else p.last_time_frame_sent)
  unfolding timer_handler
  handler_sent_ago a b = ground arith

  handler_sent : (timer_handler c p).board.sent ≡ (
      if leb p.config.takeover_time (next_capped p.last_time_frame_received)
      then if p.last_time_frame_sent == p.config.interval
        then record { frame = date_frame c p; prio = low }
          ∷ record { frame = time_frame c p; prio = low }
          ∷ p.board.sent
        else p.board.sent
      else p.board.sent)
  unfolding timer_handler
  handler_sent = ground arith

Counted-step :
    (c : Clock) (n : ℕ) (p q : Timeservice)
    → Fresh p
    → Counted n p q
    → Counted (suc n) p (timer_handler c q)
Counted-step c n p q h k = record {
  same_config = (handler_same c q).0 ∙ k.same_config;
  same_self = (handler_same c q).1 ∙ k.same_self;
  received = handler_received c q ∙ rw k.received (ground arith);
  sent_ago =
      handler_sent_ago c q (rw k.same_config h.byte_interval)
        (rw (k.sent_ago, k.same_config) (ago_range n p.config.takeover_time p.config.interval))
      ∙ rw
          (k.sent_ago, k.same_config, k.received, leads_at n p.config.takeover_time h.byte_takeover)
          (next_second n p.config.takeover_time p.config.interval h.some_takeover);
}

alone-Counted : (cs : List Clock) (p : Timeservice) → Fresh p → Counted (length cs) p (alone cs p)
unfolding alone
alone-Counted [] p h = ground arith
alone-Counted (c ∷ cs) p h = Counted-step c (length cs) p (alone cs p) h (alone-Counted cs p h)

-- whether the last of n + 1 seconds ends an interval of a service that leads
abbrev pub ends_interval : ℕ → Timeservice → Bool
ends_interval n p =
    leb p.config.takeover_time (suc n)
    && ((suc n - p.config.takeover_time) % (p.config.interval + 1) == p.config.interval)

-- A service that starts and hears no time of a lower level leads from the last second of its takeover
-- time on: it sends the time and the date of its clock at the end of each `interval + 1` seconds from then
-- on, and nothing in the other seconds.
pub sends_when_alone :
    (c : Clock) (cs : List Clock) (p : Timeservice)
    → Fresh p
    → (alone (c ∷ cs) p).board.sent ≡ (
        if ends_interval (length cs) p
        then record { frame = date_frame c p; prio = low }
          ∷ record { frame = time_frame c p; prio = low }
          ∷ (alone cs p).board.sent
        else (alone cs p).board.sent)
unfolding alone
sends_when_alone c cs p h =
    let k = alone-Counted cs p h in
    rw
      (
        handler_sent c (alone cs p),
        k.received,
        k.sent_ago,
        k.same_config,
        k.same_self,
        leads_at (length cs) p.config.takeover_time h.byte_takeover,
      )
      (ground (arith, ago_at (length cs) p.config.takeover_time p.config.interval))
