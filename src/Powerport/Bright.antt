-- ===== src/Powerport/Bright.antt =====
-- powerportAutomat.c: while it is too bright, no ON is passed on.
use hcan.Prelude.{
  ℕ, suc, ◌≡◌, Bool, true, List, [], ◌∷◌, ◌&&◌, not, if◌then◌else◌, ◌==◌, ltb, All, arith, refl,
  sym, ◌∙◌,
}
use mathlib.Core.Path.{subst}
use hcan.Board.{Frame, byte, Sent, word}
use hcan.Powerport.Automat.{
  Config, Automat, power_group_on, power_group_off, helligkeits_info, too_bright, send_message,
  on_command, can_callback,
}

-- a frame that neither switches the automatic off nor reports that it is darker
abbrev pub stays_bright : Config → Frame → Bool
stays_bright c f =
    if byte f 1 == power_group_off
    then not (byte f 2 == c.automatik_ein_schalter_gruppe)
    else if (byte f 1 == helligkeits_info) && (byte f 2 == c.helligkeits_gruppe)
    then not (word (byte f 3) (byte f 4) == 65535)
      && ltb c.helligkeitsschwelle (word (byte f 3) (byte f 4))
    else true

abbrev pub StaysBright : Config → Frame → Type 0
StaysBright c f = stays_bright c f ≡ true

-- the frames that switch a group on
unfoldable pub number_on : List Sent → ℕ
number_on [] = 0
number_on (s ∷ older) =
    let rest = number_on older in if byte s.frame 1 == power_group_on then suc rest else rest

unfoldable pub receive : List Frame → Automat → Automat
unfolding can_callback
receive [] p = p
receive (f ∷ fs) p = receive fs (can_callback p f)

record Same (p q : Automat) : Type 0 where
  config : q.config ≡ p.config
  bright : too_bright q ≡ true
  on : number_on q.board.sent ≡ number_on p.board.sent

can_callback-Same :
    (p : Automat) (f : Frame)
    → too_bright p ≡ true
    → StaysBright p.config f
    → Same p (can_callback p f)
unfolding can_callback on_command send_message number_on
can_callback-Same p f b s = record {
  config = ground arith;
  bright = ground arith;
  on = ground arith;
}

-- While it is too bright for an automatic that is on, and no frame switches it off or reports less
-- brightness, no frame switches the group of the power port on, whatever commands arrive.
pub no_on_while_bright :
    (fs : List Frame) (p : Automat)
    → too_bright p ≡ true
    → All (StaysBright p.config) fs
    → (number_on (receive fs p).board.sent ≡ number_on p.board.sent)
      × (too_bright (receive fs p) ≡ true)
unfolding receive
no_on_while_bright [] p b all = (refl, b)
no_on_while_bright (f ∷ fs) p b (s, all) =
    let k = can_callback-Same p f b s in
    let (same, bright) =
      no_on_while_bright fs (can_callback p f) k.bright
        (subst (λ c. All (StaysBright c) fs) (sym k.config) all) in
    (same ∙ k.on, bright)
