-- ===== src/Eds/Search.antt =====
-- eds_find_next_block_between (canix/eds.c) from the begin of the data space, against the list of the
-- blocks.
use hcan.Prelude.{
  ℕ, zero, suc, ◌+◌, ◌<◌, ◌≡◌, Bool, true, false, arith, refl, ap, List, [], ◌∷◌, ◌&&◌,
  if◌then◌else◌, leb, ltb, lt→ltb, length,
}
use hcan.Eds.Space.{Memory, data_start, next_block, search_from, find_next_block_between}
use hcan.Eds.Chain.{Block, Chain, chain_bound}

module _ (low high : ℕ) where
  abbrev within : ℕ → Bool
  within t = leb low t && leb t high

  -- The address of the first block from p on with a type in the range; behind the last one, the address
  -- there if the byte `beyond` at it is in the range, else 0.
  unfoldable pub first_within : ℕ → ℕ → List Block → ℕ
  first_within beyond p [] = if within beyond then p else 0
  first_within beyond p (b ∷ bs) =
      if within b.type then p else first_within beyond (p + 2 + b.size) bs

  module _ (eds_end : ℕ) where
    search_ends : (k p : ℕ) (m : Memory) → p ≡ suc eds_end → search_from eds_end k m p low high ≡ 0
    unfolding search_from
    search_ends zero p m e = refl
    search_ends (suc k) p m e =
        let outside : ltb p eds_end ≡ false = ground arith in rw outside refl

    search_goes_on :
        (k p : ℕ) (m : Memory) (b : Block) (bs : List Block)
        → Chain eds_end m p (b ∷ bs)
        → length bs < k
        → search_from eds_end k m p low high ≡ first_within (m (suc eds_end)) (p + 2 + b.size) bs
    unfolding search_from first_within
    search_goes_on zero p m b bs c l = ground arith
    search_goes_on (suc k) p m b [] (t, s, small, c) l =
        let inside : ltb p eds_end ≡ true = lt→ltb p eds_end (omega arith) in
        let next : next_block m p ≡ suc eds_end = omega arith in
        rw (inside, c, next, search_ends k (suc eds_end) m refl) refl
    search_goes_on (suc k) p m b (b' ∷ bs) (t, s, small, (t', s', small', c)) l =
        let bound = chain_bound eds_end m (p + 2 + b.size + 2 + b'.size) bs c in
        let inside : ltb p eds_end ≡ true = lt→ltb p eds_end (omega arith) in
        let rest = search_goes_on k (p + 2 + b.size) m b' bs (t', s', small', c) (omega arith) in
        rw (inside, s, t', rest) refl

    -- On a data space that is tiled by blocks, the search from the null pointer gives the first block whose
    -- type is in the range; where there is none, it gives the address behind the end of the space if the
    -- byte there is in the range, and else the null pointer.
    pub search_refines :
        (m : Memory) (bs : List Block)
        → Chain eds_end m data_start bs
        → find_next_block_between eds_end m 0 low high
          ≡ first_within (m (suc eds_end)) data_start bs
    unfolding find_next_block_between first_within
    search_refines m [] c =
        rw (search_ends eds_end data_start m c) (ap (λ k. if within (m k) then data_start else 0) c)
    search_refines m (b ∷ bs) (t, s, small, c) =
        let bound = chain_bound eds_end m data_start (b ∷ bs) (t, s, small, c) in
        rw (t, search_goes_on eds_end data_start m b bs (t, s, small, c) (omega arith)) refl
