-- ===== src/Eds/Alloc.antt =====
-- eds_alloc (canix/eds.c) against the list of the blocks.
use hcan.Prelude.{
  ℕ, zero, suc, ◌+◌, ◌-◌, ◌≤◌, ◌<◌, ◌≡◌, ◌≢◌, Bool, true, false, arith, refl, ◌∙◌, List, [], ◌∷◌,
  Option, none, some, ◌&&◌, length, if◌then◌else◌, ◌==◌, ltb, leb, lt→ltb, leb→le,
}
use mathlib.Core.Path.{subst}
use hcan.Eds.Space.{Memory, write, split, data_start, alloc_from, alloc}
use hcan.Eds.Chain.{Block, Chain, chain_bound, chain_frame}

abbrev pub free_of : ℕ → Block
free_of n = record { type = 0; size = n }

abbrev keep : Block → Option (ℕ × List Block) → Option (ℕ × List Block)
keep b none = none
keep b (some (q, cs)) = some (q, b ∷ cs)

-- First fit on the blocks from the address p on: a free block of the size, or one that can be split.
unfoldable pub place : ℕ → List Block → ℕ → Option (ℕ × List Block)
place p [] n = none
place p (b ∷ bs) n =
    let rest = keep b (place (p + 2 + b.size) bs n) in
    if b.type == 0
    then if b.size == n
      then some (p, b ∷ bs)
      else if leb (n + 2) b.size
      then some (p, free_of n ∷ free_of (b.size - n - 2) ∷ bs)
      else rest
    else rest

-- the tests of the list and of the code agree, if either of two implies the one that only the code makes
select :
    {A B : Type 0} (P : A → B → Type 0) (x1 x2 x3 : A) (y1 y2 y3 : B) (z f e g : Bool)
    → (e ≡ true → f ≡ true)
    → (g ≡ true → f ≡ true)
    → (z ≡ true → e ≡ true → P x1 y1)
    → (z ≡ true → g ≡ true → P x2 y2)
    → P x3 y3
    → P
        (if z then if e then x1 else if g then x2 else x3 else x3)
        (if z && f then if e then y1 else if g then y2 else y3 else y3)
select P x1 x2 x3 y1 y2 y3 false f e g ef gf h1 h2 h3 = h3
select P x1 x2 x3 y1 y2 y3 true true true g ef gf h1 h2 h3 = h1 refl refl
select P x1 x2 x3 y1 y2 y3 true true false true ef gf h1 h2 h3 = h2 refl refl
select P x1 x2 x3 y1 y2 y3 true true false false ef gf h1 h2 h3 = h3
select P x1 x2 x3 y1 y2 y3 true false true g ef gf h1 h2 h3 = ground arith
select P x1 x2 x3 y1 y2 y3 true false false true ef gf h1 h2 h3 = ground arith
select P x1 x2 x3 y1 y2 y3 true false false false ef gf h1 h2 h3 = h3

module _ (eds_end : ℕ) where
  -- What allocation from the address p on may do to a memory: nothing, or a new chain, where only the
  -- bytes of a split change.
  abbrev Placed : ℕ → ℕ → Memory → Option (ℕ × List Block) → Memory × ℕ → Type 0
  Placed p n m none (w, r) = (r ≡ 0) × (w ≡ m)
  Placed p n m (some (q, cs)) (w, r) =
      (r ≡ q)
      × (p ≤ q)
      × Chain eds_end w p cs
      × ((k : ℕ) → k ≢ q + 1 → k ≢ q + 2 + n → k ≢ q + 3 + n → w k ≡ m k)

  further :
      (p n : ℕ) (m : Memory) (b : Block) (o : Option (ℕ × List Block)) (r : Memory × ℕ)
      → m p ≡ b.type
      → m (p + 1) ≡ b.size
      → b.size < 256
      → Placed (p + 2 + b.size) n m o r
      → Placed p n m (keep b o) r
  further p n m b none (w, r) t s small h = h
  further p n m b (some (q, cs)) (w, r) t s small (at, after, c, same) = (
    at,
    omega arith,
    (
      same p (omega arith) (omega arith) (omega arith) ∙ t,
      same (p + 1) (omega arith) (omega arith) (omega arith) ∙ s,
      small,
      c,
    ),
    same,
  )

  split_bytes :
      (p size n : ℕ) (m : Memory) (k : ℕ)
      → n + 2 ≤ size
      → size < 256
      → split m p size n k ≡ (
          if k == p + 1
          then n
          else if k == p + 3 + n
          then size - n - 2
          else if k == p + 2 + n
          then 0
          else m k)
  unfolding write
  split_bytes p size n m k fits small = ground arith

  splits :
      (p size n : ℕ) (m : Memory) (bs : List Block)
      → m p ≡ 0
      → size < 256
      → n + 2 ≤ size
      → Chain eds_end m (p + 2 + size) bs
      → Placed p n m (some (p, free_of n ∷ free_of (size - n - 2) ∷ bs)) (split m p size n, p)
  splits p size n m bs t small fits c =
      let at : (k : ℕ) → _ = λ k. split_bytes p size n m k fits small in
      let end : p + 2 + n + 2 + (size - n - 2) ≡ p + 2 + size = omega arith in
      let tail : Chain eds_end (split m p size n) (p + 2 + size) bs =
        chain_frame eds_end m (split m p size n) (p + 2 + size) bs (λ k h. at k ∙ ground arith) c in
      (
        refl,
        omega arith,
        (
          at p ∙ ground arith,
          at (p + 1) ∙ ground arith,
          omega arith,
          (
            at (p + 2 + n) ∙ ground arith,
            at (p + 2 + n + 1) ∙ ground arith,
            omega arith,
            rw end tail,
          ),
        ),
        λ k i j l. at k ∙ ground arith,
      )

  unchanged :
      (p n : ℕ) (m : Memory) (b : Block) (bs : List Block)
      → Chain eds_end m p (b ∷ bs)
      → Placed p n m (some (p, b ∷ bs)) (m, p)
  unchanged p n m b bs c = (refl, omega arith, c, λ k i j l. refl)

  untouched : (p n : ℕ) (m : Memory) → Placed p n m none (m, 0)
  untouched p n m = (refl, refl)

  -- a step of the loop over a block
  step :
      (k p n : ℕ) (m : Memory) (b : Block) (bs : List Block)
      → m p ≡ b.type
      → m (p + 1) ≡ b.size
      → b.size < 256
      → p < eds_end
      → Chain eds_end m (p + 2 + b.size) bs
      → Placed
          (p + 2 + b.size)
          n
          m
          (place (p + 2 + b.size) bs n)
          (alloc_from eds_end k m (p + 2 + b.size) n)
      → Placed p n m (place p (b ∷ bs) n) (alloc_from eds_end (suc k) m p n)
  unfolding place alloc_from
  step k p n m b bs t s small i c h =
      let inside = lt→ltb p eds_end i in
      rw (inside, t, s)
        (select (Placed p n m) (some (p, b ∷ bs))
          (some (p, free_of n ∷ free_of (b.size - n - 2) ∷ bs))
          (keep b (place (p + 2 + b.size) bs n)) (m, p) (split m p b.size n, p)
          (alloc_from eds_end k m (p + 2 + b.size) n) (b.type == 0) (leb n b.size) (b.size == n)
          (leb (n + 2) b.size) (λ e. ground arith) (λ g. ground arith)
          (λ z e. unchanged p n m b bs (t, s, small, c))
          (λ z g. splits p b.size n m bs (t ∙ ground arith) small (leb→le (n + 2) b.size g) c)
          (further p n m b (place (p + 2 + b.size) bs n) (alloc_from eds_end k m (p + 2 + b.size) n)
            t s small h))

  at_end :
      (k p n : ℕ) (m : Memory)
      → p ≡ suc eds_end
      → Placed p n m none (alloc_from eds_end (suc k) m p n)
  unfolding alloc_from
  at_end k p n m e =
      let outside : ltb p eds_end ≡ false = ground arith in rw outside (untouched p n m)

  alloc_from-Placed :
      (k p n : ℕ) (m : Memory) (bs : List Block)
      → Chain eds_end m p bs
      → length bs < k
      → Placed p n m (place p bs n) (alloc_from eds_end k m p n)
  unfolding place
  alloc_from-Placed zero p n m bs c l = ground arith
  alloc_from-Placed (suc k) p n m [] c l = at_end k p n m c
  alloc_from-Placed (suc k) p n m (b ∷ bs) (t, s, small, c) l =
      let bound = chain_bound eds_end m (p + 2 + b.size) bs c in
      step k p n m b bs t s small (omega arith) c
        (alloc_from-Placed k (p + 2 + b.size) n m bs c (omega arith))

  alloc-Placed :
      (m : Memory) (bs : List Block) (n : ℕ)
      → Chain eds_end m data_start bs
      → Placed data_start n m (place data_start bs n) (alloc eds_end m n)
  unfolding alloc
  alloc-Placed m bs n c =
      let bound = chain_bound eds_end m data_start bs c in
      alloc_from-Placed eds_end data_start n m bs c (omega arith)

  -- what allocation returns and leaves: the null pointer and the old memory, or a block and a new chain
  abbrev pub Allocated : Memory → Option (ℕ × List Block) → Memory × ℕ → Type 0
  Allocated m none (w, r) = (r ≡ 0) × (w ≡ m)
  Allocated m (some (q, cs)) (w, r) = (r ≡ q) × Chain eds_end w data_start cs

  allocated :
      (n : ℕ) (m : Memory) (o : Option (ℕ × List Block)) (r : Memory × ℕ)
      → Placed data_start n m o r
      → Allocated m o r
  allocated n m none (w, r) h = h
  allocated n m (some (q, cs)) (w, r) (at, after, c, same) = (at, c)

  -- On a data space that is tiled by blocks, eds_alloc gives the block that first fit finds in their list
  -- and leaves the space tiled by the list after it; where no block fits it gives the null pointer and
  -- changes nothing.
  pub alloc_refines :
      (m : Memory) (bs : List Block) (n : ℕ)
      → Chain eds_end m data_start bs
      → Allocated m (place data_start bs n) (alloc eds_end m n)
  alloc_refines m bs n c =
      allocated n m (place data_start bs n) (alloc eds_end m n) (alloc-Placed m bs n c)

  -- On a data space that is tiled by blocks, where first fit finds the block at q for n bytes, eds_alloc
  -- changes no byte but the size of that block and the two bytes of a header behind its n bytes.
  pub alloc_frame :
      (m : Memory) (bs : List Block) (n q : ℕ) (cs : List Block) (k : ℕ)
      → Chain eds_end m data_start bs
      → place data_start bs n ≡ some (q, cs)
      → k ≢ q + 1
      → k ≢ q + 2 + n
      → k ≢ q + 3 + n
      → (alloc eds_end m n).0 k ≡ m k
  alloc_frame m bs n q cs k c found i j l =
      let (at, after, chain, same) : Placed data_start n m (some (q, cs)) (alloc eds_end m n) =
        subst (λ o. Placed data_start n m o (alloc eds_end m n)) found (alloc-Placed m bs n c) in
      same k i j l
