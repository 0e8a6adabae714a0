-- ===== src/FileIo/Tests.antt =====
-- The requests for a file of 100 bytes: seven blocks of 14 and one of 2.
use iowrapper.Base.{
  ℕ, ◌+◌, ◌/◌, ◌≡◌, ◌≤◌, ◌<◌, ◌↔◌, refl, true, Option, none, some, List, [], ◌∷◌, ◌++◌, length,
  total, map, ℤ, pos, negsuc, done, arith, ltb, if◌then◌else◌,
}
use iowrapper.FileIo.{
  FileInfo, readv, Completion, plan, pop_blocks, block_size, fill, push_read_request, pop_request,
  called, freed, read_callback,
}
use iowrapper.FileIo.Blocks.{blocks_cover, block_size_bounds, pop_blocks-plan}
use iowrapper.FileIo.Memory.{push-pop}
use iowrapper.FileIo.Stuck.{pops, pops-stuck}

-- posix_memalign gives the addresses 1000, 1001, …
abbrev aligned : ℕ → ℕ → Option ℕ
aligned i size = some (1000 + i)

-- No memory is left for the third block.
abbrev two_blocks : ℕ → ℕ → Option ℕ
two_blocks i size = if ltb i 2 then some (1000 + i) else none

plan-100 : plan 100 ≡ record { total_blocks = 8; initial_block_size = 14; last_block_size = 2 }
unfolding plan
plan-100 = refl

plan-5 : plan 5 ≡ record { total_blocks = 1; initial_block_size = 0; last_block_size = 5 }
unfolding plan
plan-5 = refl

blocks_cover_example :
    let (vs, all) = fill aligned (plan 100) (plan 100).total_blocks 0 in
    (total (λ v. v.len) vs ≡ 100) × (length vs ≤ 8) × ((length vs ≡ 0) ↔ (◌≡◌ {A = ℕ} 100 0))
unfolding fill plan
blocks_cover_example = blocks_cover aligned 100 refl

block_size_bounds_example : (0 < block_size (plan 100) 7) × (block_size (plan 100) 7 ≤ 100 / 7 + 6)
unfolding plan
block_size_bounds_example = block_size_bounds 100 7 (omega arith)

pop_blocks-plan_example : pop_blocks 100 ≡ (plan 100).total_blocks
pop_blocks-plan_example = pop_blocks-plan 100

abbrev info_100 : FileInfo
info_100 = record {
  addr = 500;
  opcode = readv;
  file_sz = 100;
  file_fd = 9;
  iovecs = (fill aligned (plan 100) (plan 100).total_blocks 0).0;
}

-- A ring that is the list of its completions.
abbrev peek_list : List Completion → ℤ × Option Completion
peek_list [] = (negsuc 10, none)
peek_list (c ∷ cs) = (pos 0, some c)

abbrev seen_list : List Completion → List Completion
seen_list [] = []
seen_list (c ∷ cs) = cs

push-pop_example :
    (bs : List ℕ) × (500 ∷ map (λ v. v.base) info_100.iovecs ≡ 500 ∷ bs)
    × (pop_request peek_list seen_list (record { info = info_100; res = pos 100 } ∷ [])
        ≡ done (record {
          ret = pos 0;
          ring = [];
          events =
              called (read_callback info_100.iovecs (length info_100.iovecs) 9)
              ∷ (map freed bs ++ (freed 500 ∷ []));
        }))
unfolding push_read_request fill plan
push-pop_example =
    push-pop aligned peek_list seen_list (record { info = info_100; res = pos 100 } ∷ []) 500 9 100
      100
      (record {
        ret = pos 0;
        allocated = 500 ∷ map (λ v. v.base) info_100.iovecs;
        queued = some info_100;
      })
      info_100 refl refl refl

-- The third posix_memalign fails: what was allocated until then is not given back.
push_fails :
    push_read_request two_blocks (some 500) true 9 100
    ≡ done (record { ret = negsuc 0; allocated = 500 ∷ 1000 ∷ 1001 ∷ []; queued = none })
unfolding push_read_request fill plan
push_fails = refl

abbrev failed_then_good : List Completion
failed_then_good =
    record { info = info_100; res = negsuc 4 } ∷ record { info = info_100; res = pos 100 } ∷ []

pops-stuck_example :
    pops peek_list seen_list 3 failed_then_good
    ≡ done (negsuc 4 ∷ negsuc 4 ∷ negsuc 4 ∷ [], failed_then_good)
pops-stuck_example =
    pops-stuck peek_list seen_list 3 failed_then_good (record { info = info_100; res = negsuc 4 })
      refl refl
