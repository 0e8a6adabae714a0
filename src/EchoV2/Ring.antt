-- ===== src/EchoV2/Ring.antt =====
-- The ring of buffers as `main` leaves it.
use iowrapper.Base.{ℕ, zero, suc, ◌+◌, ◌*◌, ◌<◌, ◌≡◌, some, get_elem?, arith, ap, ◌∙◌}
use iowrapper.Uring.{pool_at}
use iowrapper.EchoV2.{add, advance, fill_ring, nr_bufs}

fill_ring-add :
    (msg_len rounds i j : ℕ)
    → j < rounds
    → get_elem? (fill_ring msg_len rounds i) j
      ≡ some (add (pool_at (msg_len * (i + j))) msg_len (i + j) nr_bufs (i + j))
unfolding fill_ring
fill_ring-add msg_len zero i j h = absurd (omega arith)
fill_ring-add msg_len (suc rounds) i zero h = ground arith
fill_ring-add msg_len (suc rounds) i (suc j) h =
    fill_ring-add msg_len rounds (i + 1) j (omega arith)
    ∙ ap (λ k. some (add (pool_at (msg_len * k)) msg_len k nr_bufs k)) (omega arith)

fill_ring-advance :
    (msg_len rounds i : ℕ) → get_elem? (fill_ring msg_len rounds i) rounds ≡ some (advance nr_bufs)
unfolding fill_ring
fill_ring-advance msg_len zero i = cc
fill_ring-advance msg_len (suc rounds) i = fill_ring-advance msg_len rounds (i + 1)

-- Before the loop begins, each of the 1024 buffers has been added to the ring once, the i-th at
-- the offset i under the identifier i, with the bytes of the pool from i times the message length,
-- and then the ring is advanced by all of them.
pub fill_ring_lem :
    (msg_len i : ℕ)
    → i < nr_bufs
    → (get_elem? (fill_ring msg_len nr_bufs 0) i
        ≡ some (add (pool_at (msg_len * i)) msg_len i nr_bufs i))
      × (get_elem? (fill_ring msg_len nr_bufs 0) nr_bufs ≡ some (advance nr_bufs))
fill_ring_lem msg_len i h = (
  fill_ring-add msg_len nr_bufs 0 i h
      ∙ ap (λ k. some (add (pool_at (msg_len * k)) msg_len k nr_bufs k)) (omega arith),
  fill_ring-advance msg_len nr_bufs 0,
)
