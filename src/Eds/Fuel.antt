-- ===== src/Eds/Fuel.antt =====
-- The loops of canix/eds.c over the blocks end on any contents of the EEPROM, tiled or not: each step
-- passes two bytes at least. A loop without fuel is its body, which goes on or returns.
use hcan.Prelude.{
  ℕ, zero, suc, ◌+◌, ◌≤◌, ◌≡◌, ◌⊎◌, inl, inr, ◌&&◌, if◌then◌else◌, ◌==◌, ltb, leb, arith, refl,
  Bool-cases,
}
use hcan.Eds.Space.{
  Memory, next_block, write, merges, split, data_start, ok, invalid_pointer, alloc_from, alloc,
  free_from, free, defragment_from, defragment, search_from,
}

-- the body of a loop from a state: it goes on from another state, or the function returns
pub data Body {ℓ} (S R : Type ℓ) : Type ℓ where
  goes_on : S → Body S R
  returns : R → Body S R

-- The loop ends after finitely many rounds, with this result.
pub data Runs {ℓ} {S R : Type ℓ} (body : S → Body S R) : S → R → Type ℓ where
  stop : {s : S} {r : R} → body s ≡ returns r → Runs body s r
  again : {s t : S} {r : R} → body s ≡ goes_on t → Runs body t r → Runs body s r

module _ (eds_end : ℕ) where
  -- eds_find_next_block_between
  unfoldable pub search_body : Memory → ℕ → ℕ → ℕ → Body ℕ ℕ
  search_body m low high p =
      let q = next_block m p in
      if ltb p eds_end
      then if leb low (m q) && leb (m q) high then returns q else goes_on q
      else returns 0

  -- eds_alloc
  unfoldable pub alloc_body : Memory → ℕ → ℕ → Body ℕ (Memory × ℕ)
  alloc_body m size p =
      if ltb p eds_end
      then if (m p == 0) && leb size (m (p + 1))
        then if m (p + 1) == size
          then returns (m, p)
          else if leb (size + 2) (m (p + 1))
          then returns (split m p (m (p + 1)) size, p)
          else goes_on (next_block m p)
        else goes_on (next_block m p)
      else returns (m, 0)

  -- eds_free
  unfoldable pub free_body : Memory → ℕ → ℕ → Body ℕ (Memory × ℕ)
  unfolding write
  free_body m block p =
      if ltb p eds_end
      then if p == block then returns (write p 0 m, ok) else goes_on (next_block m p)
      else returns (m, invalid_pointer)

  -- the memory, the last free block and the block at hand in eds_defragment
  pub record Place : Type 0 where
    pub memory : Memory
    pub last : ℕ
    pub block : ℕ

  abbrev joined : Memory → ℕ → ℕ → Memory
  joined m last p =
      if merges eds_end m last p then write (last + 1) (m (last + 1) + 2 + m (p + 1)) m else m

  abbrev here : Memory → ℕ → ℕ → ℕ
  here m last p = if merges eds_end m last p then last else p

  -- eds_defragment
  unfoldable pub defragment_body : Place → Body Place Memory
  unfolding write
  defragment_body s =
      let n = joined s.memory s.last s.block in
      let q = here s.memory s.last s.block in
      if ltb s.block eds_end
      then goes_on (record { memory = n; last = if n q == 0 then q else 0; block = next_block n q })
      else returns s.memory

  search_Runs :
      (k : ℕ) (m : Memory) (low high p : ℕ)
      → eds_end ≤ p + k
      → Runs (search_body m low high) p (search_from eds_end k m p low high)
  unfolding search_from search_body
  search_Runs zero m low high p le = stop (ground arith)
  search_Runs (suc k) m low high p le = elim (Bool-cases (ltb p eds_end)) [
    | inr over ↦ stop (ground arith)
    | inl inside ↦
        let q = next_block m p in
        elim (Bool-cases (leb low (m q) && leb (m q) high)) [
          | inl found ↦ rw (inside, found) (stop (rw (inside, found) refl))
          | inr other ↦
              rw (inside, other)
                (again (rw (inside, other) refl) (search_Runs k m low high q (omega arith)))
        ]
  ]

  alloc_Runs :
      (k : ℕ) (m : Memory) (size p : ℕ)
      → eds_end ≤ p + k
      → Runs (alloc_body m size) p (alloc_from eds_end k m p size)
  unfolding alloc_from alloc_body
  alloc_Runs zero m size p le = stop (ground arith)
  alloc_Runs (suc k) m size p le = elim (Bool-cases (ltb p eds_end)) [
    | inr over ↦ stop (rw over refl)
    | inl inside ↦
        let rest = alloc_Runs k m size (next_block m p) (omega arith) in
        elim (Bool-cases ((m p == 0) && leb size (m (p + 1)))) [
          | inr other ↦ rw (inside, other) (again (rw (inside, other) refl) rest)
          | inl large ↦ elim (Bool-cases (m (p + 1) == size)) [
            | inl same ↦ rw (inside, large, same) (stop (rw (inside, large, same) refl))
            | inr differ ↦ elim (Bool-cases (leb (size + 2) (m (p + 1)))) [
              | inl splits ↦
                  rw (inside, large, differ, splits)
                    (stop (rw (inside, large, differ, splits) refl))
              | inr short ↦
                  rw (inside, large, differ, short)
                    (again (rw (inside, large, differ, short) refl) rest)
            ]
          ]
        ]
  ]

  free_Runs :
      (k : ℕ) (m : Memory) (block p : ℕ)
      → eds_end ≤ p + k
      → Runs (free_body m block) p (free_from eds_end k m p block)
  unfolding free_from free_body
  free_Runs zero m block p le = stop (ground arith)
  free_Runs (suc k) m block p le = elim (Bool-cases (ltb p eds_end)) [
    | inr over ↦ stop (rw over refl)
    | inl inside ↦ elim (Bool-cases (p == block)) [
      | inl found ↦ rw (inside, found) (stop (rw (inside, found) refl))
      | inr other ↦
          rw (inside, other)
            (again (rw (inside, other) refl) (free_Runs k m block (next_block m p) (omega arith)))
    ]
  ]

  -- the last free block, if there is one, ends where the block at hand begins
  Before : Memory → ℕ → ℕ → Type 0
  Before m last p = (last ≡ 0) ⊎ (next_block m last ≡ p)

  -- each step of the loop of eds_defragment passes two bytes
  step_on :
      (m : Memory) (last p : ℕ)
      → Before m last p
      → p + 2 ≤ next_block (joined m last p) (here m last p)
  unfolding Before write
  step_on m last p before = ground arith

  step-Before : (m : Memory) (last q : ℕ) → Before m (if m q == 0 then q else 0) (next_block m q)
  unfolding Before
  step-Before m last q = elim (Bool-cases (m q == 0)) [
    | inl free ↦ rw free (inr refl)
    | inr used ↦ rw used (inl refl)
  ]

  defragment_Runs :
      (k : ℕ) (m : Memory) (last p : ℕ)
      → Before m last p
      → eds_end ≤ p + k
      → Runs defragment_body
          (record { memory = m; last = last; block = p })
          (defragment_from eds_end k m last p)
  unfolding defragment_from defragment_body
  defragment_Runs zero m last p f le = stop (ground arith)
  defragment_Runs (suc k) m last p f le = elim (Bool-cases (ltb p eds_end)) [
    | inr over ↦ stop (rw over refl)
    | inl inside ↦
        let n = joined m last p in
        let q = here m last p in
        rw inside (
          again (rw inside refl) (
            defragment_Runs k n (if n q == 0 then q else 0) (next_block n q) (step-Before n last q)
              (omega (arith, step_on m last p f))))
  ]

  -- On any contents of the EEPROM, from any block for the search, the loops of
  -- eds_find_next_block_between, eds_alloc, eds_free and eds_defragment, run without fuel from their
  -- start, end after finitely many rounds, with the results that the definitions give in EDS_DATA_END
  -- steps.
  pub loops_end :
      (m : Memory) (p low high size block : ℕ)
      → Runs (search_body m low high) p (search_from eds_end eds_end m p low high)
        × Runs (alloc_body m size) data_start (alloc eds_end m size)
        × Runs (free_body m block) data_start (free eds_end m block)
        × Runs defragment_body
            (record { memory = m; last = 0; block = data_start })
            (defragment eds_end m)
  unfolding alloc free defragment Before
  loops_end m p low high size block = (
    search_Runs eds_end m low high p (omega arith),
    alloc_Runs eds_end m size data_start (omega arith),
    free_Runs eds_end m block data_start (omega arith),
    defragment_Runs eds_end m 0 data_start (inl refl) (omega arith),
  )
