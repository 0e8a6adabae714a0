-- ===== src/EchoV2/Sends.antt =====
-- From which memory version 2 sends.
use iowrapper.Base.{ℕ, ◌≡◌, ◌<◌, true, some}
use iowrapper.Uring.{Sqe, recv, send, Addr, null, cell}
use iowrapper.EchoV2.{bgid}

-- A request that, if it is a send, sends what lies at one of the `n_bufs` entries of the table of
-- pointers, and, if it is a receive, leaves the choice of the buffer to the kernel.
abbrev pub IsApart : ℕ → Sqe ℕ → Type 0
IsApart n_bufs e =
    ((fd n : ℕ) (a : Addr) → e.prep ≡ send fd a n → (b : ℕ) × (b < n_bufs) × (a ≡ cell b))
    × ((fd n : ℕ) (a : Addr)
        → e.prep ≡ recv fd a n
        → (a ≡ null) × (e.flags.buffer_select ≡ true) × (e.buf_group ≡ some bgid))
