-- ===== src/EchoV1.antt =====
-- netpoll/echo/c-iouring-server/io_uring_echo_server_v1.c: the echo server whose requests carry a
-- pointer into the table `conns`, which every request on a descriptor overwrites.
pub mod System
pub mod Answers
pub mod Table
pub mod Consistency
pub mod Safety
pub mod Setup
mod Tests
use iowrapper.Base.{
  ℕ, suc, ◌+◌, Bool, true, false, Option, none, some, List, [], ◌∷◌, ◌++◌, length, get_elem?, set,
  ℤ, pos, negsuc, is_le_zero, to_nat, Outcome, done, exit, fault, ◌>>=◌, ltb, ◌==◌, if◌then◌else◌,
}
use iowrapper.Uring.{Sqe, Cqe, Call, close, shutdown, Prep, accept, recv, send, row, enqueue}
use iowrapper.Registry.{register_fd}

-- The enumeration of request types; POLL_LISTEN (1) and POLL_NEW_CONNECTION (2) are never used.
abbrev pub accept_type : ℕ
accept_type = 0

abbrev pub read_type : ℕ
read_type = 3

abbrev pub write_type : ℕ
write_type = 4

pub record ConnInfo : Type 0 where
  pub fd : ℕ
  pub type : ℕ

-- The static variables that the loop changes, the entries queued since the last submission, the
-- other calls, how many completions were marked as seen and what `workload` counted. A pointer
-- into `conns` is its index.
pub record Server : Type 0 where
  pub sq : List (Sqe ℕ)
  pub calls : List Call
  pub conns : List ConnInfo
  pub registerfiles : Bool
  pub registered_files : List ℤ
  pub seen : ℕ
  pub workcount : ℕ

-- `update fd` is the result of io_uring_register_files_update for the descriptor.
module _ (got : ℕ → Bool) (update : ℕ → ℤ) where
  -- The entry of a request on `fd`, and its `conn_info`, which is a fault outside the table.
  pub add_request : Server → ℕ → ℕ → Prep → Outcome Server
  unfolding enqueue
  add_request s fd type prep =
      if ltb fd (length s.conns)
      then (enqueue got s.sq (record {
        prep = prep;
        flags = record { fixed_file = s.registerfiles; buffer_select = false };
        buf_group = none;
        user_data = fd;
      })
          >>= λ sq.
              done (record s { sq = sq; conns = set s.conns fd (record { fd = fd; type = type }) }))
      else fault

  pub add_accept : Server → ℕ → Outcome Server
  unfolding add_request
  add_accept s fd = add_request s fd accept_type (accept fd)

  -- `&conns[fd]` and `bufs[fd]` with a negative index.
  pub add_socket_read : Server → ℤ → ℕ → Outcome Server
  unfolding add_request
  add_socket_read s (negsuc n) size = fault
  add_socket_read s (pos fd) size = add_request s fd read_type (recv fd (row fd) size)

  pub add_socket_write : Server → ℕ → ℕ → Outcome Server
  unfolding add_request
  add_socket_write s fd size = add_request s fd write_type (send fd (row fd) size)

  -- `io_uring_cqe_seen`
  abbrev mark_seen : Server → Server
  mark_seen s = record s { seen = s.seen + 1 }

  abbrev workload : Server → Server
  workload s = record s { workcount = s.workcount + 1000 }

  module _ (listen_fd msg_len : ℕ) where
    pub on_accept : Server → ℤ → Outcome Server
    on_accept s fd = do
      table ← register_fd update s.registerfiles s.registered_files fd
      s' ← add_accept (record s { registered_files = table; seen = s.seen + 1 }) listen_fd
      add_socket_read s' fd msg_len

    on_read : Server → ℕ → ℤ → Outcome Server
    on_read s fd res =
        let w = workload s in
        if is_le_zero res
        then done (record w { seen = w.seen + 1; calls = w.calls ++ (shutdown fd ∷ close fd ∷ []) })
        else add_socket_write (mark_seen w) fd (to_nat res)

    -- The body of the loop, by the `conn_info` that the completion points at.
    dispatch : Server → ConnInfo → ℤ → Outcome Server
    dispatch s user_data res =
        if user_data.type == accept_type
        then on_accept s res
        else if user_data.type == read_type
        then on_read s user_data.fd res
        else if user_data.type == write_type
        then add_socket_read (mark_seen s) (pos user_data.fd) msg_len
        else done s

    pub handle : Server → Cqe ℕ → Outcome Server
    handle s cqe = elim (get_elem? s.conns cqe.user_data) [
      | none ↦ fault
      | some user_data ↦ dispatch s user_data cqe.res
    ]

    -- The loop over the batch that io_uring_peek_batch_cqe returned.
    pub handle_all : Server → List (Cqe ℕ) → Outcome Server
    handle_all s [] = done s
    handle_all s (c ∷ cs) = do s' ← handle s c; handle_all s' cs
