-- ===== src/FileIo/Blocks.antt =====
-- The division of a file into blocks.
use iowrapper.Base.{
  ℕ, zero, suc, ◌+◌, ◌*◌, ◌/◌, ◌≤◌, ◌<◌, ◌≡◌, refl, sym, ◌∙◌, ◌⊎◌, ◌↔◌, inl, inr, true, Option,
  length, total, arith,
}
use iowrapper.FileIo.{Plan, plan, pop_blocks, block_size, fill}

-- `n` blocks from block `i` on.
abbrev sizes : Plan → ℕ → ℕ → ℕ
sizes p zero i = 0
sizes p (suc n) i = block_size p i + sizes p n (i + 1)

sizes_lem :
    (p : Plan) (n i : ℕ)
    → i + suc n ≡ p.total_blocks
    → sizes p (suc n) i ≡ n * p.initial_block_size + p.last_block_size
unfolding block_size
sizes_lem p zero i h = ground arith
sizes_lem p (suc n) i h = ground (arith, sizes_lem p n (i + 1))

-- The lengths of a filled request are those of the plan.
fill-sizes :
    (memalign : ℕ → ℕ → Option ℕ) (p : Plan) (n i : ℕ)
    → (fill memalign p n i).1 ≡ true
    → (total (λ v. v.len) (fill memalign p n i).0 ≡ sizes p n i)
      × (length (fill memalign p n i).0 ≡ n)
unfolding fill
fill-sizes memalign p zero i h = (refl, refl)
fill-sizes memalign p (suc n) i h = ground (arith, fill-sizes memalign p n (i + 1))

-- The four shapes that a plan can have.
plan_cases :
    (sz : ℕ)
    → let p = plan sz in
      ((sz ≡ 0) × (p.total_blocks ≡ 0))
      ⊎ ((sz ≡ p.last_block_size) × (p.total_blocks ≡ 1) × (0 < sz) × (sz < 7))
      ⊎ ((sz ≡ 6 * p.initial_block_size + p.last_block_size)
          × (p.total_blocks ≡ 7)
          × (p.initial_block_size ≡ p.last_block_size)
          × (0 < p.initial_block_size))
      ⊎ ((sz ≡ 7 * p.initial_block_size + p.last_block_size)
          × (p.total_blocks ≡ 8)
          × (0 < p.initial_block_size)
          × (0 < p.last_block_size)
          × (p.last_block_size < 7))
unfolding plan
plan_cases sz = ground arith

sizes-plan :
    (p : Plan) (sz n : ℕ)
    → p.total_blocks ≡ suc n
    → sz ≡ n * p.initial_block_size + p.last_block_size
    → sizes p p.total_blocks 0 ≡ sz
sizes-plan p sz n e h = simp e (sizes_lem p n 0 (omega arith) ∙ sym h)

pub fill-length :
    (memalign : ℕ → ℕ → Option ℕ) (p : Plan) (n i : ℕ)
    → (fill memalign p n i).1 ≡ true
    → length (fill memalign p n i).0 ≡ n
fill-length memalign p n i h = (fill-sizes memalign p n i h).1

plan-sizes : (sz : ℕ) → sizes (plan sz) (plan sz).total_blocks 0 ≡ sz
plan-sizes sz = elim (plan_cases sz) [
  | inl (z, t) ↦ rw t (omega arith)
  | inr (inl (s, t, _, _)) ↦ sizes-plan (plan sz) sz 0 t (omega arith)
  | inr (inr (inl (s, t, _, _))) ↦ sizes-plan (plan sz) sz 6 t s
  | inr (inr (inr (s, t, _, _, _))) ↦ sizes-plan (plan sz) sz 7 t s
]

-- `pop_request` finds the number of blocks that `push_read_request` chose.
pub pop_blocks-plan : (sz : ℕ) → pop_blocks sz ≡ (plan sz).total_blocks
unfolding plan pop_blocks
pop_blocks-plan sz = ground arith

-- If every allocation succeeds, the blocks of a read request hold the file exactly, there are at
-- most eight of them, and there is none only if the file is empty.
pub blocks_cover :
    (memalign : ℕ → ℕ → Option ℕ) (sz : ℕ)
    → let (vs, all) = fill memalign (plan sz) (plan sz).total_blocks 0 in
      all ≡ true → (total (λ v. v.len) vs ≡ sz) × (length vs ≤ 8) × ((length vs ≡ 0) ↔ (sz ≡ 0))
blocks_cover memalign sz h =
    let f = fill-sizes memalign (plan sz) (plan sz).total_blocks 0 h in
    (
      f.0 ∙ plan-sizes sz,
      omega (arith, plan_cases sz),
      (λ e. omega (arith, plan_cases sz), λ e. omega (arith, plan_cases sz)),
    )

-- No block of a read request is empty, and none is larger than a seventh of the file by more
-- than six bytes.
pub block_size_bounds :
    (sz i : ℕ)
    → i < (plan sz).total_blocks
    → (0 < block_size (plan sz) i) × (block_size (plan sz) i ≤ sz / 7 + 6)
unfolding block_size
block_size_bounds sz i h = ground (arith, plan_cases sz)
