-- ===== src/Zeit/Switched.antt =====
-- zeitschaltuhr.c and powerport.c: a power port follows the zones of a time switch.
use mathlib.Core.Path.{subst}
use hcan.Prelude.{
  ℕ, ◌≡◌, inl, inr, Bool, true, false, List, [], ◌∷◌, if◌then◌else◌, arith, refl, ap, ◌∙◌,
}
use hcan.Board.{byte, Frame, setpin}
use hcan.Powerport.State.{
  Powerport, bistable_relais, verzoegert_ein, auto_aus, nachlauf, has, set_or_timer, relais_on,
  relais_off, send_state_info, is_on,
}
use hcan.Powerport.Handlers as Port
use hcan.Powerport.Handlers.{is_in_group, group_on, group_off, taster_down}
use hcan.Zeit.Schaltuhr.{Schaltuhr, init, any_matches, timer_handler, command}
use hcan.Zeit.Port.{Strecke, Second, receive, second, seconds}
use hcan.Zeit.Commands.{Handled, timer_handler-Handled, timer_handler_state}

-- a port of the group without a bistable relay, delays or a timer that runs
pub record IsPlain (group : ℕ) (p : Powerport) : Type 0 where
  pub monostable : has p bistable_relais ≡ false
  pub no_delay : has p verzoegert_ein ≡ false
  pub no_end : has p auto_aus ≡ false
  pub no_rest : has p nachlauf ≡ false
  pub timer : p.count_down_timer ≡ 0
  pub member : is_in_group p group ≡ true

second_branch : (x y : Powerport) (b : Bool) → b ≡ false → (if b then x else y) ≡ y
second_branch x y b e = rw e refl

-- The port is plain and switched as the group's state.
record Shows (group : ℕ) (v : Bool) (p : Powerport) : Type 0 where
  plain : IsPlain group p
  pin : is_on p ≡ v

module _ (meanwhile : Powerport → Powerport) (group : ℕ) (p : Powerport) (i : IsPlain group p) where
  timer-Shows : (v : Bool) → is_on p ≡ v → Shows group v (Port.timer_handler meanwhile p)
  unfolding Port.timer_handler
  timer-Shows v e =
      let same : Port.timer_handler meanwhile p ≡ p = ground (arith, i.timer) in
      rw same (record { plain = i; pin = e })

  -- the new pin, with a timer that is stopped
  abbrev switched : Bool → Powerport
  switched v =
      let q = record p { board = setpin p.config.port v p.board } in
      record (send_state_info q) { count_down_timer = 0 }

  switched-Shows : (v : Bool) → Shows group v (switched v)
  unfolding send_state_info is_in_group
  switched-Shows v = record {
    plain = record {
      monostable = i.monostable;
      no_delay = i.no_delay;
      no_end = i.no_end;
      no_rest = i.no_rest;
      timer = refl;
      member = i.member;
    };
    pin = rw i.monostable (ground arith);
  }

  relais_on_plain :
      relais_on meanwhile p
      ≡ send_state_info (record p { board = setpin p.config.port true p.board })
  unfolding relais_on
  relais_on_plain = ap (λ q. send_state_info q) (second_branch _ _ _ i.monostable)

  commanded :
      (v : Bool) (f : Frame)
      → byte f 1 ≡ command v
      → byte f 2 ≡ group
      → Port.can_callback meanwhile p f ≡ switched v
  unfolding Port.can_callback set_or_timer relais_off
  commanded true f kind group_of =
      rw (group_of, i.member, kind, i.no_delay, i.no_end)
        (ap {A = Powerport} (λ q. record q { count_down_timer = 0 }) relais_on_plain)
  commanded false f kind group_of = rw (group_of, i.member, kind, i.no_rest) refl

module _ (meanwhile : Powerport → Powerport) where
  receive-Shows :
      (group : ℕ) (p : Powerport) (before after : Schaltuhr)
      → Handled group before after
      → Shows group before.state p
      → Shows group after.state (receive meanwhile after.board.sent p)
  unfolding receive
  receive-Shows group p before after h s = elim h.said [
    | inl (quiet, same) ↦ rw (quiet, same) s
    | inr (f, sent, kind, group_of) ↦
        rw (sent, commanded meanwhile group p s.plain after.state f.frame kind group_of)
          (switched-Shows meanwhile group p s.plain after.state)
  ]

  second_port :
      (group : ℕ) (b : Bool) (p : Powerport) (before after : Schaltuhr)
      → Handled group before after
      → Shows group before.state p
      → Shows group after.state (
          if b
          then receive meanwhile after.board.sent (Port.timer_handler meanwhile p)
          else Port.timer_handler meanwhile (receive meanwhile after.board.sent p))
  second_port group true p before after h s =
      receive-Shows group (Port.timer_handler meanwhile p) before after h
        (timer-Shows meanwhile group p s.plain before.state s.pin)
  second_port group false p before after h s =
      let r = receive-Shows group p before after h s in
      timer-Shows meanwhile group (receive meanwhile after.board.sent p) r.plain after.state r.pin

  -- between two seconds
  record Follows (group : ℕ) (ids : List ℕ) (s : Strecke) : Type 0 where
    automatic : s.switch.automatik_ein ≡ true
    quiet : s.switch.board.sent ≡ []
    its_group : s.switch.config.power_gruppe ≡ group
    its_ids : s.switch.config.zeitzonen_ids ≡ ids
    shows : Shows group s.switch.state s.port

  second-Follows :
      (group : ℕ) (ids : List ℕ) (t : Second) (s : Strecke)
      → Follows group ids s
      → Follows group ids (second meanwhile t s)
        × (is_on (second meanwhile t s).port ≡ any_matches t.zones ids)
  unfolding second
  second-Follows group ids t s f =
      let h : Handled group s.switch (timer_handler t.zones s.switch) =
        subst (λ g. Handled g s.switch (timer_handler t.zones s.switch)) f.its_group
          (timer_handler-Handled t.zones s.switch f.automatic f.quiet) in
      let shows =
        second_port group t.port_first s.port s.switch (timer_handler t.zones s.switch) h f.shows in
      (
        record {
          automatic = h.automatic;
          quiet = refl;
          its_group = rw h.same_config f.its_group;
          its_ids = rw h.same_config f.its_ids;
          shows = shows;
        },
        shows.pin ∙ timer_handler_state t.zones s.switch f.automatic ∙ rw f.its_ids refl,
      )

  seconds_on :
      (group : ℕ) (ids : List ℕ) (ts : List Second) (t : Second) (s : Strecke)
      → Follows group ids s
      → is_on (second meanwhile t (seconds meanwhile ts s)).port ≡ any_matches t.zones ids
  unfolding seconds
  seconds_on group ids [] t s f = (second-Follows group ids t s f).1
  seconds_on group ids (u ∷ ts) t s f =
      seconds_on group ids ts t (second meanwhile u s) (second-Follows group ids u s f).0

  -- A time switch that starts and has sent nothing, and a power port of its group that is off, whose timer
  -- does not run and that has no bistable relay, no delay, no AUTO_AUS and no NACHLAUF; the port hears
  -- this switch only, and no frame comes for the switch. After each second, whatever zones match in
  -- each and whichever of the port's calls is first, the port is on exactly if one of the switch's
  -- zones matches in this second.
  pub port_follows_zones :
      (ts : List Second) (t : Second) (p : Schaltuhr) (port : Powerport)
      → p.board.sent ≡ []
      → IsPlain p.config.power_gruppe port
      → is_on port ≡ false
      → is_on
          (second meanwhile t (seconds meanwhile ts (record { switch = init p; port = port }))).port
        ≡ any_matches t.zones p.config.zeitzonen_ids
  unfolding init
  port_follows_zones ts t p port quiet plain off =
      seconds_on p.config.power_gruppe p.config.zeitzonen_ids ts t
        (record { switch = init p; port = port })
        (record {
          automatic = refl;
          quiet = quiet;
          its_group = refl;
          its_ids = refl;
          shows = record { plain = plain; pin = off };
        })
