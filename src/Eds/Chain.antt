-- ===== src/Eds/Chain.antt =====
-- A data space of canix/eds.c that is tiled by blocks, from an address up to its end.
use hcan.Prelude.{ℕ, suc, ◌+◌, ◌≤◌, ◌<◌, ◌≡◌, arith, ◌∙◌, List, [], ◌∷◌, length}
use hcan.Eds.Space.{Memory}

pub record Block : Type 0 where
  pub type : ℕ
  pub size : ℕ

module _ (eds_end : ℕ) where
  abbrev pub Chain : Memory → ℕ → List Block → Type 0
  Chain m p [] = p ≡ suc eds_end
  Chain m p (b ∷ bs) =
      (m p ≡ b.type) × (m (p + 1) ≡ b.size) × (b.size < 256) × Chain m (p + 2 + b.size) bs

  -- Each block takes two bytes at least.
  pub chain_bound :
      (m : Memory) (p : ℕ) (bs : List Block)
      → Chain m p bs
      → p + length bs + length bs ≤ suc eds_end
  chain_bound m p [] c = omega arith
  chain_bound m p (b ∷ bs) (t, s, small, c) =
      let rest = chain_bound m (p + 2 + b.size) bs c in omega arith

  -- A chain is a matter of the bytes from its begin on.
  pub chain_frame :
      (m n : Memory) (p : ℕ) (bs : List Block)
      → ((k : ℕ) → p ≤ k → n k ≡ m k)
      → Chain m p bs
      → Chain n p bs
  chain_frame m n p [] same c = c
  chain_frame m n p (b ∷ bs) same (t, s, small, c) = (
    same p (omega arith) ∙ t,
    same (p + 1) (omega arith) ∙ s,
    small,
    chain_frame m n (p + 2 + b.size) bs (λ k h. same k (omega arith)) c,
  )
