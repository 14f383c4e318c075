-- ===== src/Tastdimmer.antt =====
-- A dimmer that is driven by its button: firmwares/controllerboard-1612-v01/tastdimmer.c and tastdimmer.h.
use hcan.Prelude.{ℕ, ◌≡◌, Bool, true, false, List, [], ◌∷◌, ◌&&◌, if◌then◌else◌, ◌==◌, arith, refl}
use hcan.Board.{Frame, byte, Board, setpin, getpin}

-- eds_tastdimmer_block_t; `gruppen` is gruppe0 to gruppe7
pub record Config : Type 0 where
  pub port : ℕ
  pub feedback_guppe : ℕ
  pub feature : ℕ
  pub gruppen : List ℕ

-- device_data_tastdimmer, with the board that it acts on
pub record Tastdimmer : Type 0 where
  pub config : Config
  pub board : Board

abbrev taster_down : ℕ
taster_down = 1

abbrev taster_up : ℕ
taster_up = 2

-- the loop of tastdimmer_is_in_group
unfoldable listed : List ℕ → ℕ → Bool
listed [] group = false
listed (g ∷ gs) group = let rest = listed gs group in if g == group then true else rest

unfoldable is_in_group : Tastdimmer → ℕ → Bool
is_in_group p group = if group == 255 then false else listed p.config.gruppen group

-- tastdimmer_can_callback
unfoldable can_callback : Tastdimmer → Frame → Tastdimmer
can_callback p f =
    if is_in_group p (byte f 2)
    then if byte f 1 == taster_down
      then record p { board = setpin p.config.port true p.board }
      else if byte f 1 == taster_up
      then record p { board = setpin p.config.port false p.board }
      else p
    else p

-- frames, the last one first
run : List Frame → Tastdimmer → Tastdimmer
run [] p = p
run (f ∷ fs) p = can_callback (run fs p) f

-- the last frame of a button of the dimmer says that it is down; before the first one the pin is as it was
wanted : Tastdimmer → List Frame → Bool → Bool
wanted p [] b = b
wanted p (f ∷ fs) b =
    let older = wanted p fs b in
    if is_in_group p (byte f 2) && (byte f 1 == taster_down)
    then true
    else if is_in_group p (byte f 2) && (byte f 1 == taster_up)
    then false
    else older

group_of_config :
    (p q : Tastdimmer) (g : ℕ) → q.config ≡ p.config → is_in_group q g ≡ is_in_group p g
unfolding is_in_group
group_of_config p q g e = rw e refl

-- one frame
next_frame :
    (p q : Tastdimmer) (f : Frame)
    → q.config ≡ p.config
    → ((can_callback q f).config ≡ p.config)
      × (getpin p.config.port (can_callback q f).board ≡ (
          if is_in_group p (byte f 2) && (byte f 1 == taster_down)
          then true
          else if is_in_group p (byte f 2) && (byte f 1 == taster_up)
          then false
          else getpin p.config.port q.board))
unfolding can_callback
next_frame p q f e = ground (arith, group_of_config p q (byte f 2) e)

-- The pin is on exactly while the last frame of a button of one of the dimmer's groups says that it is down.
pin_follows :
    (fs : List Frame) (p : Tastdimmer)
    → ((run fs p).config ≡ p.config)
      × (getpin p.config.port (run fs p).board ≡ wanted p fs (getpin p.config.port p.board))
unfolding run wanted
pin_follows [] p = (refl, refl)
pin_follows (f ∷ fs) p =
    let (config, pin) = pin_follows fs p in
    let (config2, pin2) = next_frame p (run fs p) f config in (config2, rw pin at pin2)
