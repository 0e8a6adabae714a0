-- ===== src/Uring.antt =====
-- The vocabulary of liburing that the programs use. liburing itself is not in the repository:
-- a call of an `io_uring_prep_*` function is recorded with its arguments, never interpreted here.
use iowrapper.Base.{
  ℕ, ◌≡◌, ◌<◌, ◌/◌, ◌^◌, Bool, true, false, Option, List, [], ◌∷◌, ◌++◌, length, ℤ, Outcome, done,
  fault, if◌then◌else◌,
}

-- The addresses that a request names: NULL, row i of an array of buffers, the cell i of an array
-- of pointers to buffers, or an offset into a pool of buffers.
pub data Addr : Type 0 where
  null : Addr
  row : ℕ → Addr
  cell : ℕ → Addr
  pool_at : ℕ → Addr

-- The `io_uring_prep_*` calls, with the arguments that the programs choose. `recvmsg` and
-- `sendmsg` name the one `iovec` of their message; `poll_add` has the `len` set behind it.
-- `dead_recvmsg` and `dead_sendmsg` name a message on the stack of a function that has returned: what
-- the kernel finds there is undefined.
pub data Prep : Type 0 where
  accept : ℕ → Prep
  recv : ℕ → Addr → ℕ → Prep
  send : ℕ → Addr → ℕ → Prep
  recvmsg : ℕ → Addr → ℕ → Prep
  sendmsg : ℕ → Addr → ℕ → Prep
  dead_recvmsg : ℕ → Prep
  dead_sendmsg : ℕ → Prep
  poll_add : ℕ → ℕ → Prep
  provide_buffers : Addr → ℕ → ℕ → ℕ → ℕ → Prep

-- The two bits of `sqe->flags` that the programs set.
pub record Flags : Type 0 where
  pub fixed_file : Bool
  pub buffer_select : Bool

abbrev pub no_flags : Flags
no_flags = record { fixed_file = false; buffer_select = false }

abbrev pub select_buffer : Flags
select_buffer = record { fixed_file = false; buffer_select = true }

pub record Sqe (U : Type 0) : Type 0 where
  pub prep : Prep
  pub flags : Flags
  pub buf_group : Option ℕ
  pub user_data : U

pub record Cqe (U : Type 0) : Type 0 where
  pub user_data : U
  pub res : ℤ
  pub flags : ℕ

-- `cqe->flags >> 16`, the identifier of the buffer that the kernel chose.
abbrev pub bid_of_flags : ℕ → ℕ
bid_of_flags f = f / 2 ^ 16

-- The other system calls of the handlers, in the order in which they are made.
pub data Call : Type 0 where
  shutdown : ℕ → Call
  close : ℕ → Call

-- `got n`: whether `io_uring_get_sqe` returns an entry, not NULL, when n entries have been taken
-- since the last submission. The programs write through the result unchecked.
unfoldable pub enqueue : {U : Type 0} → (ℕ → Bool) → List (Sqe U) → Sqe U → Outcome (List (Sqe U))
enqueue got sq e = if got (length sq) then done (sq ++ (e ∷ [])) else fault

-- What the programs rely on: an empty queue of k entries hands out k of them.
abbrev pub HasEntries : (ℕ → Bool) → ℕ → Type 0
HasEntries got k = (n : ℕ) → n < k → got n ≡ true

-- ENOBUFS, EMSGSIZE and EFAULT of the Linux <errno.h>.
abbrev pub enobufs : ℕ
enobufs = 105

abbrev pub emsgsize : ℕ
emsgsize = 90

abbrev pub efault : ℕ
efault = 14
