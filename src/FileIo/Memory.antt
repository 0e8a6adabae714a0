-- ===== src/FileIo/Memory.antt =====
-- The memory of a request, from `push_read_request` to `pop_request`.
use iowrapper.Base.{
  ℕ, ◌≡◌, refl, sym, ap, ◌∙◌, ◌⊎◌, inl, inr, true, false, Option, none, some, List, [], ◌∷◌, ◌++◌,
  map, length, arith, ℤ, pos, negsuc, done,
}
use iowrapper.FileIo.{
  Iovec, FileInfo, Completion, Pushed, Event, called, freed, read_callback, readv, plan, fill,
  free_blocks, finish, push_read_request, pop_request,
}
use iowrapper.FileIo.Blocks.{pop_blocks-plan, fill-length}

abbrev pub bases : List Iovec → List ℕ
bases vs = map (λ v. v.base) vs

free_blocks-length : (vs : List Iovec) → free_blocks (length vs) vs ≡ done (bases vs)
unfolding free_blocks
free_blocks-length [] = refl
free_blocks-length (v ∷ vs) = rw (free_blocks-length vs)

pop-done :
    {R : Type 0} (peek : R → ℤ × Option Completion) (seen : R → R) (ring : R) (info : FileInfo)
    (n : ℕ) (es : List Event)
    → peek ring ≡ (pos 0, some (record { info = info; res = pos n }))
    → finish (record { info = info; res = pos n }) ≡ done es
    → pop_request peek seen ring ≡ done (record { ret = pos 0; ring = seen ring; events = es })
unfolding pop_request
pop-done peek seen ring info n es e f = rw (e, f)

module _ (memalign : ℕ → ℕ → Option ℕ) where
  abbrev blocks : ℕ → List Iovec
  blocks sz = (fill memalign (plan sz) (plan sz).total_blocks 0).0

  abbrev read_info : ℕ → ℕ → ℕ → FileInfo
  read_info a fd sz = record {
    addr = a;
    opcode = readv;
    file_sz = sz;
    file_fd = fd;
    iovecs = blocks sz;
  }

  finish-read :
      (a fd sz r : ℕ)
      → (fill memalign (plan sz) (plan sz).total_blocks 0).1 ≡ true
      → finish (record { info = read_info a fd sz; res = pos r })
        ≡ done (
            called (read_callback (blocks sz) (length (blocks sz)) fd)
            ∷ (map freed (bases (blocks sz)) ++ (freed a ∷ [])))
  unfolding finish
  finish-read a fd sz r h = rw (
    pop_blocks-plan sz ∙ sym (fill-length memalign (plan sz) (plan sz).total_blocks 0 h),
    free_blocks-length (blocks sz),
  )

  -- What `push_read_request` returns on each branch.
  push_read_cases :
      (a fd sz : ℕ) (p : Pushed)
      → push_read_request memalign (some a) true fd sz ≡ done p
      → (((fill memalign (plan sz) (plan sz).total_blocks 0).1 ≡ true)
          × (p ≡ record {
            ret = pos 0;
            allocated = a ∷ bases (blocks sz);
            queued = some (read_info a fd sz);
          }))
        ⊎ (((fill memalign (plan sz) (plan sz).total_blocks 0).1 ≡ false)
            × (p ≡ record { ret = negsuc 0; allocated = a ∷ bases (blocks sz); queued = none }))
  unfolding push_read_request
  push_read_cases a fd sz p h = ground arith

  -- If `push_read_request` queues a request, then `pop_request`, on a completion of it whose
  -- result is not negative, first hands every block to the Go callback, then frees exactly what was
  -- allocated, each address once, the blocks in order and the `file_info` last, and marks the
  -- completion as seen.
  pub push-pop :
      {R : Type 0} (peek : R → ℤ × Option Completion) (seen : R → R) (ring : R) (a fd sz n : ℕ)
      (p : Pushed) (info : FileInfo)
      → push_read_request memalign (some a) true fd sz ≡ done p
      → p.queued ≡ some info
      → peek ring ≡ (pos 0, some (record { info = info; res = pos n }))
      → (bs : List ℕ) × (p.allocated ≡ a ∷ bs)
        × (pop_request peek seen ring
            ≡ done (record {
              ret = pos 0;
              ring = seen ring;
              events =
                  called (read_callback info.iovecs (length info.iovecs) fd)
                  ∷ (map freed bs ++ (freed a ∷ []));
            }))
  push-pop peek seen ring a fd sz n p info h q e = elim (push_read_cases a fd sz p h) [
    | inl (ok, s) ↦
        let i : info ≡ read_info a fd sz = cc (ap (λ t. t.queued) s) in
        (
          bases (blocks sz),
          ap (λ t. t.allocated) s,
          pop-done peek seen ring info n _ e (rw i (finish-read a fd sz n ok)),
        )
    | inr (_, s) ↦ cc
  ]
