-- ===== src/Eds/Merge.antt =====
-- eds_free and eds_defragment (canix/eds.c) against the list of the blocks.
use hcan.Prelude.{
  ℕ, zero, suc, ◌+◌, ◌≤◌, ◌<◌, ◌≡◌, Bool, true, false, arith, refl, ap, sym, ◌∙◌, List, [], ◌∷◌,
  ◌&&◌, length, if◌then◌else◌, ◌==◌, ltb, leb, lt→ltb, Bool-cases, inl, inr,
}
use hcan.Eds.Space.{Memory, write, next_block, merges, data_start, defragment_from, defragment}
use hcan.Eds.Chain.{Block, Chain, chain_bound, chain_frame}

abbrev pub is_free : Block → Bool
is_free b = b.type == 0

abbrev pub joined_size : Block → Block → ℕ
joined_size a b = a.size + 2 + b.size

-- Runs of free blocks joined from the left, up to 255 bytes.
unfoldable pub join_from : Block → List Block → List Block
join_from a [] = a ∷ []
join_from a (b ∷ bs) =
    if is_free a && is_free b && leb (joined_size a b) 255
    then join_from (record { type = 0; size = joined_size a b }) bs
    else a ∷ join_from b bs

unfoldable pub join : List Block → List Block
unfolding join_from
join [] = []
join (b ∷ bs) = join_from b bs

module _ (eds_end : ℕ) where
  -- what the loop makes of the memory from the address q on
  record Joins (q : ℕ) (m w : Memory) (bs : List Block) : Type 0 where
    chain : Chain eds_end w q bs
    before : (k : ℕ) → k < q → w k ≡ m k

  abbrev last_of : Memory → ℕ → ℕ
  last_of m q = if m q == 0 then q else 0

  -- the loop stands behind the block at q
  abbrev rest_of : ℕ → Memory → ℕ → Memory
  rest_of k m q = defragment_from eds_end k m (last_of m q) (next_block m q)

  stops :
      (k last p : ℕ) (m : Memory)
      → ltb p eds_end ≡ false
      → defragment_from eds_end (suc k) m last p ≡ m
  unfolding defragment_from
  stops k last p m e = rw e refl

  skips :
      (k last p : ℕ) (m : Memory)
      → ltb p eds_end ≡ true
      → merges eds_end m last p ≡ false
      → defragment_from eds_end (suc k) m last p ≡ rest_of k m p
  unfolding defragment_from
  skips k last p m e h = rw (e, h) refl

  joins :
      (k last p : ℕ) (m : Memory)
      → ltb p eds_end ≡ true
      → merges eds_end m last p ≡ true
      → defragment_from eds_end (suc k) m last p
        ≡ rest_of k (write (last + 1) (m (last + 1) + 2 + m (p + 1)) m) last
  unfolding defragment_from
  joins k last p m e h = rw (e, h) refl

  merges_at :
      (q : ℕ) (m : Memory) (a b : Block)
      → 0 < q
      → m q ≡ a.type
      → m (q + 1) ≡ a.size
      → m (q + 2 + a.size) ≡ b.type
      → m (q + 2 + a.size + 1) ≡ b.size
      → merges eds_end m (last_of m q) (q + 2 + a.size)
        ≡ (is_free a && is_free b && leb (joined_size a b) 255)
  merges_at q m a b i t s t' s' =
      let here : (q == 0) ≡ false = ground arith in
      elim (Bool-cases (is_free a)) [
        | inl vacant ↦ rw (t, vacant, here, s, t', s') refl
        | inr taken ↦ rw (t, taken) refl
      ]

  joined :
      (q : ℕ) (m : Memory) (a b : Block) (bs : List Block)
      → m q ≡ 0
      → joined_size a b ≤ 255
      → Chain eds_end m (q + 2 + a.size + 2 + b.size) bs
      → Chain eds_end
          (write (q + 1) (joined_size a b) m)
          q
          (record { type = 0; size = joined_size a b } ∷ bs)
  unfolding write
  joined q m a b bs t h c =
      let place : q + 2 + joined_size a b ≡ q + 2 + a.size + 2 + b.size = omega arith in
      let w = write (q + 1) (joined_size a b) m in
      let tail : Chain eds_end w (q + 2 + a.size + 2 + b.size) bs =
        chain_frame eds_end m w (q + 2 + a.size + 2 + b.size) bs (λ k l. ground arith) c in
      (ground arith, ground arith, omega arith, rw place tail)

  before_write : (m : Memory) (q j v : ℕ) → j < q → write (q + 1) v m j ≡ m j
  unfolding write
  before_write m q j v h = ground arith

  rest-Joins :
      (k q : ℕ) (m : Memory) (a : Block) (bs : List Block)
      → 0 < q
      → Chain eds_end m q (a ∷ bs)
      → length bs < k
      → Joins q m (rest_of k m q) (join_from a bs)
  unfolding join_from
  rest-Joins zero q m a bs i c l = ground arith
  rest-Joins (suc k) q m a [] i (t, s, small, c) l =
      let outside : ltb (next_block m q) eds_end ≡ false = ground arith in
      rw (stops k (last_of m q) (next_block m q) m outside)
        (record { chain = (t, s, small, c); before = λ j h. refl })
  rest-Joins (suc k) q m a (b ∷ bs) i (t, s, small, (t', s', small', c)) l =
      let p = q + 2 + a.size in
      let test = merges_at q m a b i t s t' s' in
      let bound = chain_bound eds_end m (p + 2 + b.size) bs c in
      let inside : ltb p eds_end ≡ true = lt→ltb p eds_end (omega arith) in
      rw s (elim (Bool-cases (is_free a && is_free b && leb (joined_size a b) 255)) [
        | inl joint ↦
            let vacant : m q ≡ 0 = ground arith in
            let fits : joined_size a b ≤ 255 = ground arith in
            let last : last_of m q ≡ q = ground arith in
            let test' : merges eds_end m q p ≡ true =
              ap (λ x. merges eds_end m x p) (sym last) ∙ test ∙ joint in
            let sizes : m (q + 1) + 2 + m (p + 1) ≡ joined_size a b = omega arith in
            rw (last, joins k q p m inside test', sizes, joint)
              (let r =
                  rest-Joins k q (write (q + 1) (joined_size a b) m)
                    (record { type = 0; size = joined_size a b }) bs i
                    (joined q m a b bs vacant fits c) (omega arith) in
                record {
                  chain = r.chain;
                  before = λ j h. r.before j h ∙ before_write m q j (joined_size a b) h;
                })
        | inr apart ↦
            rw (skips k (last_of m q) p m inside (test ∙ apart), apart)
              (let r = rest-Joins k p m b bs (omega arith) (t', s', small', c) (omega arith) in
                record {
                  chain = (
                    r.before q (omega arith) ∙ t,
                    r.before (q + 1) (omega arith) ∙ s,
                    small,
                    r.chain,
                  );
                  before = λ j h. r.before j (omega arith);
                })
      ])

  beyond : (k last p : ℕ) (m : Memory) → p ≡ suc eds_end → defragment_from eds_end k m last p ≡ m
  unfolding defragment_from
  beyond zero last p m e = refl
  beyond (suc k) last p m e =
      let outside : ltb p eds_end ≡ false = ground arith in stops k last p m outside

  from_start :
      (k p : ℕ) (m : Memory) (b : Block) (bs : List Block)
      → 0 < p
      → Chain eds_end m p (b ∷ bs)
      → length bs + 1 < k
      → Joins p m (defragment_from eds_end k m 0 p) (join_from b bs)
  from_start zero p m b bs i c l = ground arith
  from_start (suc k) p m b bs i c l =
      let bound = chain_bound eds_end m p (b ∷ bs) c in
      let inside : ltb p eds_end ≡ true = lt→ltb p eds_end (omega arith) in
      rw (skips k 0 p m inside refl) (rest-Joins k p m b bs i c (omega arith))

  -- On a data space that is tiled by blocks, eds_defragment leaves it tiled by the blocks that joining runs
  -- of free blocks from the left, up to 255 bytes each, makes of them, and changes no byte k before it.
  pub defragment_refines :
      (m : Memory) (bs : List Block) (k : ℕ)
      → Chain eds_end m data_start bs
      → k < data_start
      → Chain eds_end (defragment eds_end m) data_start (join bs) × (defragment eds_end m k ≡ m k)
  unfolding defragment join
  defragment_refines m [] k c h = let same = beyond eds_end 0 data_start m c in rw same (c, refl)
  defragment_refines m (b ∷ bs) k c h =
      let bound = chain_bound eds_end m data_start (b ∷ bs) c in
      let r = from_start eds_end data_start m b bs (omega arith) c (omega arith) in
      (r.chain, r.before k h)
