-- ===== src/Eds/Free.antt =====
-- eds_free (canix/eds.c) against the list of the blocks, and the service's allocation where no block fits.
use hcan.Prelude.{
  ℕ, zero, suc, ◌+◌, ◌≤◌, ◌<◌, ◌≡◌, ◌≢◌, false, arith, refl, ap, ◌∙◌, List, [], ◌∷◌, Option, none,
  some, length, if◌then◌else◌, ◌==◌, ltb, lt→ltb, Bool-cases, inl, inr,
}
use mathlib.Core.Path.{subst}
use hcan.Board.{Frame, byte}
use hcan.Eds.Space.{Memory, write, data_start, free_from, free, ok, invalid_pointer, alloc}
use hcan.Eds.Chain.{Block, Chain, chain_bound, chain_frame}
use hcan.Eds.Alloc.{place, Allocated, alloc_refines}
use hcan.Eds.Callback.{Eds, on_allocate_block}

abbrev prepend : Block → Option (List Block) → Option (List Block)
prepend b none = none
prepend b (some bs) = some (b ∷ bs)

-- The blocks from p on with the one at the address a free, if there is one.
unfoldable pub vacate : ℕ → List Block → ℕ → Option (List Block)
vacate p [] a = none
vacate p (b ∷ bs) a =
    if p == a then some (record b { type = 0 } ∷ bs) else prepend b (vacate (p + 2 + b.size) bs a)

write_other : (p k v : ℕ) (m : Memory) → k ≢ p → write p v m k ≡ m k
unfolding write
write_other p k v m h = ground arith

module _ (eds_end : ℕ) where
  abbrev pub Freed : ℕ → ℕ → Memory → Option (List Block) → Memory × ℕ → Type 0
  Freed p a m none (w, r) = (r ≡ invalid_pointer) × (w ≡ m)
  Freed p a m (some cs) (w, r) = (r ≡ ok) × (p ≤ a) × Chain eds_end w p cs × (w ≡ write a 0 m)

  further :
      (p a : ℕ) (m : Memory) (b : Block) (o : Option (List Block)) (r : Memory × ℕ)
      → m p ≡ b.type
      → m (p + 1) ≡ b.size
      → b.size < 256
      → Freed (p + 2 + b.size) a m o r
      → Freed p a m (prepend b o) r
  further p a m b none (w, r) t s small h = h
  further p a m b (some cs) (w, r) t s small (done, after, c, same) =
      let below : (k : ℕ) → k < a → w k ≡ m k =
        λ k h. ap (λ u. u k) same ∙ write_other a k 0 m (omega arith) in
      (
        done,
        omega arith,
        (below p (omega arith) ∙ t, below (p + 1) (omega arith) ∙ s, small, c),
        same,
      )

  hits :
      (p : ℕ) (m : Memory) (b : Block) (bs : List Block)
      → Chain eds_end m p (b ∷ bs)
      → Freed p p m (some (record b { type = 0 } ∷ bs)) (write p 0 m, ok)
  unfolding write
  hits p m b bs (t, s, small, c) =
      let tail : Chain eds_end (write p 0 m) (p + 2 + b.size) bs =
        chain_frame eds_end m (write p 0 m) (p + 2 + b.size) bs (λ k h. ground arith) c in
      (refl, omega arith, (ground arith, ground arith, small, tail), refl)

  free_from-Freed :
      (k p a : ℕ) (m : Memory) (bs : List Block)
      → Chain eds_end m p bs
      → length bs < k
      → Freed p a m (vacate p bs a) (free_from eds_end k m p a)
  unfolding free_from vacate
  free_from-Freed zero p a m bs c l = ground arith
  free_from-Freed (suc k) p a m [] c l =
      let outside : ltb p eds_end ≡ false = ground arith in rw outside (refl, refl)
  free_from-Freed (suc k) p a m (b ∷ bs) (t, s, small, c) l =
      let bound = chain_bound eds_end m (p + 2 + b.size) bs c in
      let inside = lt→ltb p eds_end (omega arith) in
      let rest = free_from-Freed k (p + 2 + b.size) a m bs c (omega arith) in
      rw (inside, s)
        (elim (Bool-cases (p == a)) [
          | inl here ↦
              let at : p ≡ a = ground arith in
              rw here (
                subst (λ x. Freed p x m (some (record b { type = 0 } ∷ bs)) (write p 0 m, ok)) at
                  (hits p m b bs (t, s, small, c)))
          | inr there ↦ rw there (
              further p a m b (vacate (p + 2 + b.size) bs a)
                (free_from eds_end k m (p + 2 + b.size) a) t s small rest)
        ])

  -- On a data space that is tiled by blocks, eds_free of the address of a block makes that block free,
  -- leaves the space tiled by the others as they were, and changes no other byte; any other address gives
  -- EDS_INVALID_POINTER and changes nothing.
  pub free_refines :
      (m : Memory) (bs : List Block) (a : ℕ)
      → Chain eds_end m data_start bs
      → Freed data_start a m (vacate data_start bs a) (free eds_end m a)
  unfolding free
  free_refines m bs a c =
      let bound = chain_bound eds_end m data_start bs c in
      free_from-Freed eds_end data_start a m bs c (omega arith)

  -- On a data space that is tiled by blocks, where no block fits, a request to allocate writes the type of
  -- the block to the address 0 of the EEPROM, and changes nothing else in it.
  pub allocate_none_clobbers :
      (e : Eds) (f : Frame) (bs : List Block)
      → Chain eds_end e.eeprom data_start bs
      → place data_start bs (byte f 3) ≡ none
      → (on_allocate_block eds_end e f).eeprom ≡ write 0 (byte f 2) e.eeprom
  unfolding on_allocate_block
  allocate_none_clobbers e f bs c full =
      let r = alloc eds_end e.eeprom (byte f 3) in
      let (null, same) : Allocated eds_end e.eeprom none r =
        subst (λ o. Allocated eds_end e.eeprom o r) full
          (alloc_refines eds_end e.eeprom bs (byte f 3) c) in
      rw (null, same) refl
