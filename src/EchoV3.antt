-- ===== src/EchoV3.antt =====
-- netpoll/echo/c-iouring-server/io_uring_echo_server_v3.c: the echo server on multishot polls, with
-- one table of `conn_info` for the reads and accepts, one for the writes and one for the polls.
pub mod Laws
pub mod Setup
mod Tests
use iowrapper.Base.{
  ℕ, suc, ◌+◌, Bool, true, false, not, Option, none, some, List, [], ◌∷◌, ◌++◌, length, get_elem?,
  set, ℤ, pos, negsuc, is_le_zero, to_nat, Outcome, done, exit, fault, ◌>>=◌, ltb, ◌==◌,
  if◌then◌else◌,
}
use iowrapper.Uring.{
  Sqe, Cqe, Call, close, shutdown, Prep, accept, recv, send, poll_add, Flags, no_flags, row,
  enqueue,
}
use iowrapper.Registry.{FilesEnv, init_tables, register_fd}

-- The enumeration of request types; 1 and 2 are never used.
abbrev pub accept_type : ℕ
accept_type = 0

abbrev pub read_type : ℕ
read_type = 3

abbrev pub write_type : ℕ
write_type = 4

abbrev pub poll_in_ready_type : ℕ
poll_in_ready_type = 5

pub record ConnInfo : Type 0 where
  pub fd : ℕ
  pub type : ℕ

-- A pointer into one of the three tables.
pub data Ptr : Type 0 where
  in_read in_write in_poll : ℕ → Ptr

pub record Server : Type 0 where
  pub sq : List (Sqe Ptr)
  pub calls : List Call
  pub conns_read : List ConnInfo
  pub conns_write : List ConnInfo
  pub conns_poll : List ConnInfo
  pub registerfiles : Bool
  pub registered_files : List ℤ
  pub seen : ℕ
  pub clients : ℕ

abbrev pub point_at : Server → Ptr → Option ConnInfo
point_at s (in_read i) = get_elem? s.conns_read i
point_at s (in_write i) = get_elem? s.conns_write i
point_at s (in_poll i) = get_elem? s.conns_poll i

-- `init_registerfiles(conns)`
pub init_registerfiles : FilesEnv → ℕ → ℤ × List ℤ
init_registerfiles env conns = init_tables env conns

module _ (got : ℕ → Bool) (update : ℕ → ℤ) where
  abbrev fixed : Server → Flags
  fixed s = record { fixed_file = s.registerfiles; buffer_select = false }

  pub add_accept : Server → ℕ → Outcome Server
  unfolding enqueue
  add_accept s fd =
      if ltb fd (length s.conns_read)
      then (enqueue got s.sq
            (record { prep = accept fd; flags = fixed s; buf_group = none; user_data = in_read fd })
          >>= λ sq. done (record s {
            sq = sq;
            conns_read = set s.conns_read fd (record { fd = fd; type = accept_type });
          }))
      else fault

  -- `add_poll_read` with `is_poll`: `sqe->len = 1` makes the poll a multishot one. A negative
  -- descriptor is an index outside the table.
  pub add_poll : Server → ℤ → Outcome Server
  unfolding enqueue
  add_poll s (negsuc n) = fault
  add_poll s (pos fd) =
      if ltb fd (length s.conns_poll)
      then (enqueue got s.sq (record {
        prep = poll_add fd 1;
        flags = no_flags;
        buf_group = none;
        user_data = in_poll fd;
      })
          >>= λ sq. done (record s {
            sq = sq;
            conns_poll = set s.conns_poll fd (record { fd = fd; type = poll_in_ready_type });
          }))
      else fault

  -- `add_poll_read` without `is_poll`.
  pub add_read : Server → ℕ → ℕ → Outcome Server
  unfolding enqueue
  add_read s fd size =
      if ltb fd (length s.conns_read)
      then (enqueue got s.sq (record {
        prep = recv fd (row fd) size;
        flags = fixed s;
        buf_group = none;
        user_data = in_read fd;
      })
          >>= λ sq. done (record s {
            sq = sq;
            conns_read = set s.conns_read fd (record { fd = fd; type = read_type });
          }))
      else fault

  pub add_socket_write : Server → ℕ → ℕ → Outcome Server
  unfolding enqueue
  add_socket_write s fd size =
      if ltb fd (length s.conns_write)
      then (enqueue got s.sq (record {
        prep = send fd (row fd) size;
        flags = fixed s;
        buf_group = none;
        user_data = in_write fd;
      })
          >>= λ sq. done (record s {
            sq = sq;
            conns_write = set s.conns_write fd (record { fd = fd; type = write_type });
          }))
      else fault

  module _ (listen_fd msg_len : ℕ) where
    on_accept : Server → ℤ → Outcome Server
    unfolding register_fd
    on_accept s fd = do
      table ← register_fd update s.registerfiles s.registered_files fd
      s' ← add_poll (record s { registered_files = table; seen = s.seen + 1 }) fd
      s'' ← add_accept s' listen_fd
      done (record s'' { clients = s''.clients + 1 })

    on_read : Server → ℕ → ℤ → Outcome Server
    on_read s fd res =
        if is_le_zero res
        then done (record s { seen = s.seen + 1; calls = s.calls ++ (shutdown fd ∷ close fd ∷ []) })
        else add_socket_write (record s { seen = s.seen + 1 }) fd (to_nat res)

    on_poll : Server → ℕ → Outcome Server
    on_poll s fd = do s' ← add_read s fd msg_len; done (record s' { seen = s'.seen + 1 })

    dispatch : Server → ConnInfo → ℤ → Outcome Server
    unfolding on_accept on_read on_poll
    dispatch s user_data res =
        if user_data.type == accept_type
        then on_accept s res
        else if user_data.type == read_type
        then on_read s user_data.fd res
        else if user_data.type == write_type
        then done (record s { seen = s.seen + 1 })
        else if user_data.type == poll_in_ready_type
        then on_poll s user_data.fd
        else done s

    pub handle : Server → Cqe Ptr → Outcome Server
    unfolding dispatch
    handle s cqe = elim (point_at s cqe.user_data) [
      | none ↦ fault
      | some user_data ↦ dispatch s user_data cqe.res
    ]

    pub handle_all : Server → List (Cqe Ptr) → Outcome Server
    handle_all s [] = done s
    handle_all s (c ∷ cs) = do s' ← handle s c; handle_all s' cs
