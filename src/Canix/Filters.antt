-- ===== src/Canix/Filters.antt =====
-- canix/canix.c: the table of frame callbacks, canix_reg_frame_callback and canix_deliver_frame. A
-- callback is its address, 0 for none.
use mathlib.Core.Bool.{false≢true}
use mathlib.Core.List.{Perm}
use mathlib.Core.List.Perm
use hcan.Prelude.{
  ℕ, ◌≡◌, ◌≢◌, refl, Bool, true, false, List, [], ◌∷◌, ◌&&◌, ◌||◌, not, arith, if◌then◌else◌, ◌==◌,
  Bool-cases, inl, inr,
}
use hcan.Prelude.Int.{ℤ, pos, negsuc, eqb_ℤ}
use hcan.Board.{Frame, byte}

-- canix_frame_callback_entry; `dst` is an int, -1 for any address
pub record Entry : Type 0 where
  pub callback : ℕ
  pub dst : ℤ
  pub proto : ℕ
  pub srv : ℕ

-- the two tests of canix_deliver_frame on an entry that is installed
unfoldable pub matches : Entry → Frame → Bool
matches e f =
    (eqb_ℤ e.dst (negsuc 0) || not (eqb_ℤ e.dst (negsuc 0)) && eqb_ℤ e.dst (pos f.dst))
    && ((e.proto == 0 || e.proto == f.proto) && (e.srv == 0 || e.srv == byte f 0))

-- canix_deliver_frame: the callbacks that are called, in order
unfoldable pub deliver_frame : List Entry → Frame → List ℕ
deliver_frame [] f = []
deliver_frame (e ∷ es) f =
    let rest = deliver_frame es f in
    if e.callback == 0 then rest else if matches e f then e.callback ∷ rest else rest

-- canix_reg_frame_callback; a full table stays as it is
unfoldable pub reg_frame_callback : List Entry → Entry → List Entry
reg_frame_callback [] new = []
reg_frame_callback (e ∷ es) new =
    if e.callback == 0 then new ∷ es else e ∷ reg_frame_callback es new

unfoldable pub has_room : List Entry → Bool
has_room [] = false
has_room (e ∷ es) = if e.callback == 0 then true else has_room es

-- the callback of one entry, if the frame passes its filter
abbrev called : Entry → Frame → List ℕ → List ℕ
called e f rest = if matches e f then e.callback ∷ rest else rest

called-perm :
    (e : Entry) (f : Frame) {xs ys : List ℕ} → Perm xs ys → Perm (called e f xs) (called e f ys)
called-perm e f h = elim (Bool-cases (matches e f)) [
  | inl hit ↦ rw hit (Perm.cons _ h)
  | inr miss ↦ rw miss h
]

called-swap :
    (d e : Entry) (f : Frame) (xs : List ℕ)
    → Perm (called d f (called e f xs)) (called e f (called d f xs))
called-swap d e f xs = elim (Bool-cases (matches d f)) [
  | inl d_hit ↦ elim (Bool-cases (matches e f)) [
    | inl e_hit ↦ rw (d_hit, e_hit) (Perm.swap _ _ _)
    | inr e_miss ↦ rw (d_hit, e_miss) (Perm.refl _)
  ]
  | inr d_miss ↦ elim (Bool-cases (matches e f)) [
    | inl e_hit ↦ rw (d_miss, e_hit) (Perm.refl _)
    | inr e_miss ↦ rw (d_miss, e_miss) (Perm.refl _)
  ]
]

deliver-installed :
    (e : Entry) (es : List Entry) (f : Frame)
    → (e.callback == 0) ≡ false
    → deliver_frame (e ∷ es) f ≡ called e f (deliver_frame es f)
unfolding deliver_frame
deliver-installed e es f h = rw h

deliver-free :
    (e : Entry) (es : List Entry) (f : Frame)
    → (e.callback == 0) ≡ true
    → deliver_frame (e ∷ es) f ≡ deliver_frame es f
unfolding deliver_frame
deliver-free e es f h = rw h

test_ne : (n : ℕ) → n ≢ 0 → (n == 0) ≡ false
test_ne n h = ground arith

reg-perm :
    (es : List Entry) (new : Entry) (f : Frame)
    → (new.callback == 0) ≡ false
    → has_room es ≡ true
    → Perm (deliver_frame (reg_frame_callback es new) f) (called new f (deliver_frame es f))
unfolding reg_frame_callback has_room
reg-perm [] new f n r = absurd (false≢true r)
reg-perm (e ∷ es) new f n r = elim (Bool-cases (e.callback == 0)) [
  | inl free ↦ rw free (rw (deliver-installed new es f n, deliver-free e es f free) (Perm.refl _))
  | inr installed ↦ rw installed (
      rw (deliver-installed e (reg_frame_callback es new) f installed) (
        rw (deliver-installed e es f installed) (
          Perm.trans (called-perm e f (reg-perm es new f n (rw installed at r)))
            (called-swap e new f (deliver_frame es f)))))
]

-- A callback that finds a free entry is from then on called once for each frame that its filter
-- matches, and not for another, beside the callbacks that were called before.
pub deliver-reg :
    (es : List Entry) (new : Entry) (f : Frame)
    → new.callback ≢ 0
    → has_room es ≡ true
    → Perm
        (deliver_frame (reg_frame_callback es new) f)
        (if matches new f then new.callback ∷ deliver_frame es f else deliver_frame es f)
deliver-reg es new f n r = reg-perm es new f (test_ne new.callback n) r

-- A full table stays as it is.
pub reg_full :
    (es : List Entry) (new : Entry) → has_room es ≡ false → reg_frame_callback es new ≡ es
unfolding reg_frame_callback has_room
reg_full [] new r = refl
reg_full (e ∷ es) new r = ground (arith, reg_full es new)
