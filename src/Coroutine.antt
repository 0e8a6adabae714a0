-- ===== src/Coroutine.antt =====
-- netpoll/echo/cpp-coroutine-iouring-server/coroutine_io_uring_echo_server.cpp: the echo server with a
-- coroutine for each connection. A suspended coroutine is its promise and the `co_await` at which it
-- waits; `resume` runs it to the next one.
pub mod Asked
pub mod Protocol
pub mod Failure
pub mod Startup
pub mod System
pub mod Changes
pub mod Entries
pub mod Moves
pub mod Handling
pub mod Pending
pub mod Waiting
mod Tests
use iowrapper.Base.{
  ℕ, ◌+◌, ◌-◌, ◌^◌, Bool, true, false, Option, none, some, List, [], ◌∷◌, ◌++◌, ℤ, pos, negsuc,
  is_neg, is_minus, to_nat, Outcome, done, exit, ◌>>=◌, ◌>>◌, exit_if, ◌==◌, if◌then◌else◌,
}
use iowrapper.Uring.{
  Sqe, Cqe, Call, shutdown, Flags, no_flags, select_buffer, Prep, accept, recv, send,
  provide_buffers, null, row, enqueue, bid_of_flags, enobufs,
}
use iowrapper.ConnInfo.{ConnInfo, conn_info, to_user_data, of_user_data}

abbrev pub max_message_len : ℕ
max_message_len = 2048

abbrev pub group_id : ℕ
group_id = 1337

-- The enumeration of request types.
abbrev pub accept_type : ℕ
accept_type = 0

abbrev pub read_type : ℕ
read_type = 1

abbrev pub write_type : ℕ
write_type = 2

abbrev pub prov_buf_type : ℕ
prov_buf_type = 3

-- An `int` as a `size_t`.
abbrev pub to_size_t : ℤ → ℕ
to_size_t (pos n) = n
to_size_t (negsuc n) = 2 ^ 64 - 1 - n

-- Where a coroutine waits: before its first line (`initial_suspend`), or in `echo_read` or
-- `echo_write`. `echo_add_buffer` resumes the coroutine itself.
pub data Point : Type 0 where
  initial_suspend in_echo_read in_echo_write : Point

-- The promise of a coroutine, with the point at which it waits.
pub record Task : Type 0 where
  pub conn_info : ConnInfo
  pub res : ℕ
  pub point : Point

pub record Server : Type 0 where
  pub sq : List (Sqe ℕ)
  pub calls : List Call
  pub connections : ℕ → Option Task

unfoldable pub put : (ℕ → Option Task) → ℕ → Option Task → ℕ → Option Task
put m n t fd = if n == fd then t else m fd

-- `std::map::emplace` keeps the task of a key that is there.
unfoldable pub emplace : (ℕ → Option Task) → ℕ → Task → ℕ → Option Task
unfolding put
emplace m fd t = elim (m fd) [ none ↦ put m fd (some t) | some old ↦ m ]

-- `std::map::at` throws where the key is missing. Nothing catches it: the process is aborted, which
-- a shell reports as 134.
unfoldable pub find : (ℕ → Option Task) → ℕ → Outcome Task
find m fd = elim (m fd) [ none ↦ exit 134 | some t ↦ done t ]

module _ (got : ℕ → Bool) where
  pub submit_entry : Server → Prep → Flags → Option ℕ → ConnInfo → Outcome Server
  unfolding enqueue
  submit_entry s prep flags group info = do
    sq ←
        enqueue got s.sq
          (record { prep = prep; flags = flags; buf_group = group; user_data = to_user_data info })
    done (record s { sq = sq })

  pub add_accept : Server → ℕ → Flags → Outcome Server
  unfolding submit_entry
  add_accept s fd flags = submit_entry s (accept fd) flags none (conn_info fd accept_type 0)

  -- `co_await echo_read(…)` of the coroutine under `key`, up to its suspension.
  pub echo_read : Server → ℕ → Task → ℕ → Flags → Outcome Server
  unfolding submit_entry
  echo_read s key t message_size flags = do
    let i = record t.conn_info { type = read_type }
    s' ← submit_entry s (recv i.fd null message_size) flags (some group_id) i
    done (record s' {
      connections =
          put s'.connections key (some (record t { conn_info = i; point = in_echo_read }));
    })

  pub echo_write : Server → ℕ → Task → ℕ → Flags → Outcome Server
  unfolding submit_entry
  echo_write s key t message_size flags = do
    let i = record t.conn_info { type = write_type }
    s' ← submit_entry s (send i.fd (row i.bid) message_size) flags none i
    done (record s' {
      connections =
          put s'.connections key (some (record t { conn_info = i; point = in_echo_write }));
    })

  -- `co_await echo_add_buffer()`, with the promise that it leaves.
  pub echo_add_buffer : Server → Task → Outcome (Server × Task)
  unfolding submit_entry
  echo_add_buffer s t = do
    let i = record t.conn_info { type = prov_buf_type }
    s' ←
        submit_entry s (provide_buffers (row i.bid) max_message_len 1 group_id i.bid) no_flags none
          i
    done (s', record t { conn_info = i })

  -- The body of `handle_echo(fd)`, from the point at which the coroutine waits to the next one.
  -- `size_r` is a `size_t`: `size_r <= 0` holds of 0 alone.
  pub resume : Server → ℕ → Task → Outcome Server
  unfolding echo_read echo_write echo_add_buffer
  resume s fd t = elim t.point [
    | initial_suspend ↦ echo_read s fd t max_message_len select_buffer
    | in_echo_read ↦
        if t.res == 0
        then (echo_add_buffer s t >>= λ p. done (record p.0 {
          calls = p.0.calls ++ (shutdown fd ∷ []);
          connections = put p.0.connections fd none;
        }))
        else echo_write s fd t t.res no_flags
    | in_echo_write ↦
        (echo_add_buffer s t >>= λ p. echo_read p.0 fd p.1 max_message_len select_buffer)
  ]

  -- `left` is the promise of a new coroutine as it lies in memory, which nobody initialises.
  module _ (listen_fd : ℕ) (left : ConnInfo × ℕ) where
    pub on_accept : Server → ℤ → Outcome Server
    unfolding resume add_accept
    on_accept s (negsuc e) = add_accept s listen_fd no_flags
    on_accept s (pos fd) = do
      let new : Task = record { conn_info = left.0; res = left.1; point = initial_suspend }
      let connections = emplace s.connections fd new
      t ← find connections fd
      s' ←
          resume (record s { connections = connections }) fd
            (record t { conn_info = record t.conn_info { fd = fd } })
      add_accept s' listen_fd no_flags

    pub on_read : Server → ℕ → ℤ → ℕ → Outcome Server
    unfolding resume
    on_read s fd res bid = do
      t ← find s.connections fd
      resume s fd (record t { conn_info = record t.conn_info { bid = bid }; res = to_size_t res })

    pub on_write : Server → ℕ → Outcome Server
    unfolding resume
    on_write s fd = find s.connections fd >>= λ t. resume s fd t

    -- The body of the loop over the completions.
    pub handle : Server → Cqe ℕ → Outcome Server
    handle s cqe =
        let conn_i = of_user_data cqe.user_data in
        if is_minus cqe.res enobufs
        then exit 1
        else if conn_i.type == prov_buf_type
        then exit_if (is_neg cqe.res) 1 >> done s
        else if conn_i.type == accept_type
        then on_accept s cqe.res
        else if conn_i.type == read_type
        then on_read s conn_i.fd cqe.res (bid_of_flags cqe.flags)
        else if conn_i.type == write_type
        then on_write s conn_i.fd
        else done s

    -- `io_uring_for_each_cqe`, with the count handed to `io_uring_cq_advance` at its end.
    pub handle_all : Server → ℕ → List (Cqe ℕ) → Outcome (Server × ℕ)
    handle_all s count [] = done (s, count)
    handle_all s count (c ∷ cs) = do s' ← handle s c; handle_all s' (count + 1) cs
