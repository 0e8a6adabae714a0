-- ===== src/EchoV0.antt =====
-- netpoll/echo/c-iouring-server/io_uring_echo_server.c: the echo server with provided buffers.
-- A request carries its `conn_info` by value, so the handlers keep no table of connections.
pub mod Requests
pub mod System
pub mod Balance
pub mod Buffers
pub mod Connections
pub mod Batch
pub mod Setup
mod Tests
use iowrapper.Base.{
  ℕ, suc, ◌+◌, Bool, true, false, Option, none, some, List, [], ◌∷◌, ◌++◌, ℤ, pos, negsuc, is_neg,
  is_le_zero, is_minus, to_nat, Outcome, done, exit, fault, ◌>>=◌, ◌>>◌, exit_if, ltb, ◌==◌,
  if◌then◌else◌,
}
use iowrapper.Uring.{
  Sqe, Cqe, Call, close, Flags, no_flags, select_buffer, Prep, accept, recv, send, provide_buffers,
  null, row, enqueue, bid_of_flags, enobufs,
}
use iowrapper.ConnInfo.{ConnInfo, conn_info, to_user_data, of_user_data}

abbrev pub max_connections : ℕ
max_connections = 4096

abbrev pub max_message_len : ℕ
max_message_len = 2048

abbrev pub buffers_count : ℕ
buffers_count = max_connections

abbrev pub group_id : ℕ
group_id = 1337

-- The enumeration of request types.
abbrev pub accept_type : ℕ
accept_type = 0

abbrev pub read_type : ℕ
read_type = 1

abbrev pub write_type : ℕ
write_type = 2

abbrev pub prov_buf_type : ℕ
prov_buf_type = 3

-- The entries taken from the submission queue since the last submission, and the other calls.
pub record Server : Type 0 where
  pub sq : List (Sqe ℕ)
  pub calls : List Call

module _ (got : ℕ → Bool) where
  submit_entry : Server → Prep → Flags → Option ℕ → ConnInfo → Outcome Server
  unfolding enqueue
  submit_entry s prep flags group info = do
    sq ←
        enqueue got s.sq
          (record { prep = prep; flags = flags; buf_group = group; user_data = to_user_data info })
    done (record s { sq = sq })

  unfoldable pub add_accept : Server → ℕ → Flags → Outcome Server
  unfolding submit_entry
  add_accept s fd flags = submit_entry s (accept fd) flags none (conn_info fd accept_type 0)

  -- `message_size` is not passed on: the code asks for 0 bytes.
  pub add_socket_read : Server → ℕ → ℕ → ℕ → Flags → Outcome Server
  unfolding submit_entry
  add_socket_read s fd gid message_size flags =
      submit_entry s (recv fd null 0) flags (some gid) (conn_info fd read_type 0)

  pub add_socket_write : Server → ℕ → ℕ → ℕ → Flags → Outcome Server
  unfolding submit_entry
  add_socket_write s fd bid message_size flags =
      submit_entry s (send fd (row bid) message_size) flags none (conn_info fd write_type bid)

  pub add_provide_buf : Server → ℕ → ℕ → Outcome Server
  unfolding submit_entry
  add_provide_buf s bid gid =
      submit_entry s (provide_buffers (row bid) max_message_len 1 gid bid) no_flags none
        (conn_info 0 prov_buf_type 0)

  -- The branches of the event loop, for the listening socket `listen_fd`.
  module _ (listen_fd : ℕ) where
    -- `if (sock_conn_fd >= 0) add_socket_read(…); add_accept(…);`
    on_accept : Server → ℤ → Outcome Server
    unfolding add_accept add_socket_read
    on_accept s (negsuc e) = add_accept s listen_fd no_flags
    on_accept s (pos fd) = do
      s' ← add_socket_read s fd group_id max_message_len select_buffer
      add_accept s' listen_fd no_flags

    on_read : Server → ConnInfo → ℤ → ℕ → Outcome Server
    unfolding add_provide_buf add_socket_write
    on_read s info res bid =
        if is_le_zero res
        then (add_provide_buf s bid group_id >>= λ s'.
            done (record s' { calls = s'.calls ++ (close info.fd ∷ []) }))
        else add_socket_write s info.fd bid (to_nat res) no_flags

    on_write : Server → ConnInfo → Outcome Server
    unfolding add_provide_buf add_socket_read
    on_write s info = do
      s' ← add_provide_buf s info.bid group_id
      add_socket_read s' info.fd group_id max_message_len select_buffer

    -- The body of the loop over the completions.
    pub handle : Server → Cqe ℕ → Outcome Server
    handle s cqe =
        let info = of_user_data cqe.user_data in
        if is_minus cqe.res enobufs
        then exit 1
        else if info.type == prov_buf_type
        then exit_if (is_neg cqe.res) 1 >> done s
        else if info.type == accept_type
        then on_accept s cqe.res
        else if info.type == read_type
        then on_read s info cqe.res (bid_of_flags cqe.flags)
        else if info.type == write_type
        then on_write s info
        else done s

    -- `io_uring_for_each_cqe`, with the count handed to `io_uring_cq_advance` at its end.
    pub handle_all : Server → ℕ → List (Cqe ℕ) → Outcome (Server × ℕ)
    handle_all s count [] = done (s, count)
    handle_all s count (c ∷ cs) = do s' ← handle s c; handle_all s' (count + 1) cs
