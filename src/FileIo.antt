-- ===== src/FileIo.antt =====
-- iouring/liburing.c: read and write requests of the file interface that Go calls through cgo.
-- `off_t` values are natural numbers: the Go caller passes file sizes. malloc, posix_memalign and
-- the ring come from outside the repository and are parameters.
pub mod Blocks
pub mod Memory
pub mod Stuck
mod Tests
use iowrapper.Base.{
  ℕ, zero, suc, ◌+◌, ◌-◌, ◌*◌, ◌/◌, Bool, true, false, Option, none, some, List, [], ◌∷◌, ◌++◌,
  length, map, ℤ, pos, negsuc, is_neg, Outcome, done, exit, fault, ◌>>=◌, ltb, ◌==◌, if◌then◌else◌,
}

abbrev pub initial_num_blocks : ℕ
initial_num_blocks = 7

pub record Iovec : Type 0 where
  pub base : ℕ
  pub len : ℕ

pub data Opcode : Type 0 where
  readv writev other : Opcode

-- `struct file_info`, with the address at which malloc placed it. Its fields are written before
-- the request is queued and only read afterwards.
pub record FileInfo : Type 0 where
  pub addr : ℕ
  pub opcode : Opcode
  pub file_sz : ℕ
  pub file_fd : ℕ
  pub iovecs : List Iovec

-- The number of blocks, the size of each but the last, and the size of the last.
pub record Plan : Type 0 where
  pub total_blocks : ℕ
  pub initial_block_size : ℕ
  pub last_block_size : ℕ

pub plan : ℕ → Plan
plan file_sz =
    let initial = file_sz / initial_num_blocks in
    let blocks = (if initial == 0 then 0 else initial_num_blocks) in
    let rest = file_sz - initial * blocks in
    if ltb 0 rest
    then record { total_blocks = blocks + 1; initial_block_size = initial; last_block_size = rest }
    else record { total_blocks = blocks; initial_block_size = initial; last_block_size = initial }

-- `pop_request` computes the number of blocks again, from the size alone.
pub pop_blocks : ℕ → ℕ
pop_blocks file_sz =
    let initial = file_sz / initial_num_blocks in
    let blocks = (if initial == 0 then 0 else initial_num_blocks) in
    if ltb 0 (file_sz - initial * blocks) then blocks + 1 else blocks

pub block_size : Plan → ℕ → ℕ
block_size p i = if i == p.total_blocks - 1 then p.last_block_size else p.initial_block_size

-- What `push_read_request` and `push_write_request` leave behind: their result, the memory that
-- they allocated, in order, and the request that they queued, if they came so far.
pub record Pushed : Type 0 where
  pub ret : ℤ
  pub allocated : List ℕ
  pub queued : Option FileInfo

module _ (memalign : ℕ → ℕ → Option ℕ) where
  -- The loop over `fi->iovecs`: `n` rounds left, the next of them `i`. `memalign i size` is the
  -- block that posix_memalign gives in round i. The flag says that every call succeeded.
  pub fill : Plan → ℕ → ℕ → List Iovec × Bool
  fill p zero i = ([], true)
  fill p (suc n) i = elim (memalign i (block_size p i)) [
    | none ↦ ([], false)
    | some b ↦
        let (rest, all) = fill p n (i + 1) in
        (record { base = b; len = block_size p i } ∷ rest, all)
  ]

  -- `fi` is what malloc returns (none: NULL, which the code writes through), and `sqe` whether
  -- io_uring_get_sqe returns an entry.
  pub push_read_request : Option ℕ → Bool → ℕ → ℕ → Outcome Pushed
  push_read_request none sqe file_fd file_sz = fault
  push_read_request (some a) sqe file_fd file_sz =
      let p = plan file_sz in
      let (iovecs, all) = fill p p.total_blocks 0 in
      let blocks = a ∷ map (λ v. v.base) iovecs in
      let info : FileInfo = record {
        addr = a;
        opcode = readv;
        file_sz = file_sz;
        file_fd = file_fd;
        iovecs = iovecs;
      } in
      if all
      then if sqe
        then done (record { ret = pos 0; allocated = blocks; queued = some info })
        else fault
      else done (record { ret = negsuc 0; allocated = blocks; queued = none })

pub push_write_request : Option ℕ → Bool → ℕ → ℕ → ℕ → Outcome Pushed
push_write_request none sqe file_fd data_ file_sz = fault
push_write_request (some a) sqe file_fd data_ file_sz =
    if sqe
    then done (record {
      ret = pos 0;
      allocated = a ∷ [];
      queued = some (record {
        addr = a;
        opcode = writev;
        file_sz = file_sz;
        file_fd = file_fd;
        iovecs = record { base = data_; len = file_sz } ∷ [];
      });
    })
    else fault

-- The calls into Go.
pub data Callback : Type 0 where
  read_callback : List Iovec → ℕ → ℕ → Callback
  write_callback : ℤ → ℕ → Callback

-- `for (i = 0; i < total_blocks; i++) free(fi->iovecs[i].iov_base)`; a fault past the iovecs.
pub free_blocks : ℕ → List Iovec → Outcome (List ℕ)
free_blocks zero vs = done []
free_blocks (suc n) [] = fault
free_blocks (suc n) (v ∷ vs) = do rest ← free_blocks n vs; done (v.base ∷ rest)

-- A call into Go, or a call of `free` with this address.
pub data Event : Type 0 where
  called : Callback → Event
  freed : ℕ → Event

pub record Completion : Type 0 where
  pub info : FileInfo
  pub res : ℤ

pub record Popped (R : Type 0) : Type 0 where
  pub ret : ℤ
  pub ring : R
  pub events : List Event

-- What is done, in this order, for a completion whose result is not negative.
pub finish : Completion → Outcome (List Event)
finish c = elim c.info.opcode [
  | readv ↦
      let n = pop_blocks c.info.file_sz in
      free_blocks n c.info.iovecs >>= λ bases. done (
        called (read_callback c.info.iovecs n c.info.file_fd)
        ∷ (map freed bases ++ (freed c.info.addr ∷ [])))
  | writev ↦ done (called (write_callback c.res c.info.file_fd) ∷ freed c.info.addr ∷ [])
  | other ↦ done (freed c.info.addr ∷ [])
]

-- `peek` is io_uring_peek_cqe: an error, or 0 with the oldest completion; `seen` is
-- io_uring_cqe_seen.
module _ {R : Type 0} (peek : R → ℤ × Option Completion) (seen : R → R) where
  pop_completion : R → Completion → Outcome (Popped R)
  unfolding finish
  pop_completion r c =
      if is_neg c.res
      then done (record { ret = c.res; ring = r; events = [] })
      else do events ← finish c; done (record { ret = pos 0; ring = seen r; events = events })

  pub pop_request : R → Outcome (Popped R)
  unfolding pop_completion
  pop_request r =
      let (ret, cqe) = peek r in
      if is_neg ret
      then done (record { ret = ret; ring = r; events = [] })
      else elim cqe [ none ↦ fault | some c ↦ pop_completion r c ]
