-- ===== src/EchoV2.antt =====
-- netpoll/echo/c-iouring-server/io_uring_echo_server_v2.c: the echo server on a ring of buffers
-- that the kernel chooses from. liburing's calls on the ring are recorded with their arguments.
pub mod Ring
pub mod Laws
pub mod Sends
pub mod Setup
mod Tests
use iowrapper.Base.{
  ℕ, zero, suc, ◌+◌, ◌*◌, ◌^◌, Bool, true, false, Option, none, some, List, [], ◌∷◌, ◌++◌, length,
  get_elem?, set, ℤ, pos, negsuc, is_le_zero, to_nat, Outcome, done, fault, ◌>>=◌, ltb, ◌==◌,
  if◌then◌else◌,
}
use iowrapper.Uring.{
  Sqe, Cqe, Call, close, shutdown, Prep, accept, recv, send, Flags, Addr, null, cell, pool_at,
  enqueue, bid_of_flags,
}
use iowrapper.Registry.{register_fd}

-- The enumeration of request types; 1 and 2 are never used.
abbrev pub accept_type : ℕ
accept_type = 0

abbrev pub read_type : ℕ
read_type = 3

abbrev pub write_type : ℕ
write_type = 4

abbrev pub nr_bufs : ℕ
nr_bufs = 1024

abbrev pub bgid : ℕ
bgid = 16

-- The field `buf` of the source is never used.
pub record ConnInfo : Type 0 where
  pub fd : ℕ
  pub type : ℕ
  pub multishot_recv : Bool

-- `io_uring_buf_ring_add(br, addr, len, bid, io_uring_buf_ring_mask(entries), offset)` and
-- `io_uring_buf_ring_advance(br, count)`.
pub data RingCall : Type 0 where
  add : Addr → ℕ → ℕ → ℕ → ℕ → RingCall
  advance : ℕ → RingCall

pub record Server : Type 0 where
  pub sq : List (Sqe ℕ)
  pub calls : List Call
  pub conns : List ConnInfo
  pub registerfiles : Bool
  pub registered_files : List ℤ
  pub ring : List RingCall
  pub buf_added : ℕ

-- A product of two `int`s, the second not negative. Its overflow is undefined. A negative length is
-- not followed: as the size of an allocation it is beyond what malloc gives, and `main` exits before.
pub int_product : ℤ → ℕ → Outcome ℕ
int_product (negsuc n) m = fault
int_product (pos n) m = if ltb (n * m) (2 ^ 31) then done (n * m) else fault

-- The loop of `main` that fills the ring, with `rounds` left at index i, and the call behind it. The
-- products of the length and an index below `nr_bufs` are smaller than the one that `main` computes
-- before for the size of the pool.
pub fill_ring : ℕ → ℕ → ℕ → List RingCall
fill_ring msg_len zero i = advance nr_bufs ∷ []
fill_ring msg_len (suc rounds) i =
    add (pool_at (msg_len * i)) msg_len i nr_bufs i ∷ fill_ring msg_len rounds (i + 1)

module _ (got : ℕ → Bool) (update : ℕ → ℤ) where
  pub add_accept : Server → ℕ → Outcome Server
  unfolding enqueue
  add_accept s fd = elim (get_elem? s.conns fd) [
    | none ↦ fault
    | some c ↦
        (enqueue got s.sq (record {
          prep = accept fd;
          flags = record { fixed_file = s.registerfiles; buffer_select = false };
          buf_group = none;
          user_data = fd;
        })
          >>= λ sq. done (record s {
            sq = sq;
            conns = set s.conns fd (record c { fd = fd; type = accept_type });
          }))
  ]

  -- A negative descriptor is an index outside the table.
  pub add_socket_read : Server → ℤ → ℕ → Outcome Server
  unfolding enqueue
  add_socket_read s (negsuc n) size = fault
  add_socket_read s (pos fd) size =
      if ltb fd (length s.conns)
      then (enqueue got s.sq (record {
        prep = recv fd null size;
        flags = record { fixed_file = s.registerfiles; buffer_select = true };
        buf_group = some bgid;
        user_data = fd;
      })
          >>= λ sq. done (record s {
            sq = sq;
            conns = set s.conns fd (record { fd = fd; type = read_type; multishot_recv = true });
          }))
      else fault

  -- The address is that of the pointer `bufs[bid]` in the table of `n_bufs` pointers; outside of it
  -- the send is a fault.
  pub add_socket_write : ℕ → Server → ℕ → ℕ → ℕ → Outcome Server
  unfolding enqueue
  add_socket_write n_bufs s fd bid size = elim (get_elem? s.conns fd) [
    | none ↦ fault
    | some c ↦
        if ltb bid n_bufs
        then (enqueue got s.sq (record {
          prep = send fd (cell bid) size;
          flags = record { fixed_file = s.registerfiles; buffer_select = false };
          buf_group = none;
          user_data = fd;
        })
            >>= λ sq. done (record s {
              sq = sq;
              conns = set s.conns fd (record c { fd = fd; type = write_type });
            }))
        else fault
  ]

  -- `n_bufs` is the number of entries of the table `bufs`, that is `max_connections`.
  module _ (listen_fd msg_len n_bufs : ℕ) where
    pub on_accept : Server → ℤ → Outcome Server
    unfolding register_fd
    on_accept s fd = do
      table ← register_fd update s.registerfiles s.registered_files fd
      s' ← add_socket_read (record s { registered_files = table }) fd msg_len
      add_accept s' listen_fd

    -- What `on_read` does when the buffer is back in the ring.
    pub end_read : Server → ℕ → ℤ → ℕ → Outcome Server
    end_read r fd res buf_id =
        if is_le_zero res
        then done (record r { calls = r.calls ++ (shutdown fd ∷ close fd ∷ []) })
        else add_socket_write n_bufs r fd buf_id (to_nat res)

    pub on_read : Server → ℕ → ℤ → ℕ → Outcome Server
    on_read s fd res buf_id = do
      at ← int_product (pos msg_len) buf_id
      end_read
          (record s {
            ring = s.ring ++ (add (pool_at at) msg_len 0 nr_bufs 0 ∷ []);
            buf_added = s.buf_added + 1;
          })
          fd res buf_id

    dispatch : Server → ConnInfo → Cqe ℕ → Outcome Server
    unfolding on_accept on_read
    dispatch s user_data cqe =
        if user_data.type == accept_type
        then on_accept s cqe.res
        else if user_data.type == read_type
        then on_read s user_data.fd cqe.res (bid_of_flags cqe.flags)
        else if user_data.type == write_type
        then add_socket_read s (pos user_data.fd) msg_len
        else done s

    pub handle : Server → Cqe ℕ → Outcome Server
    unfolding dispatch
    handle s cqe = elim (get_elem? s.conns cqe.user_data) [
      | none ↦ fault
      | some user_data ↦ dispatch s user_data cqe
    ]

    handle_each : Server → List (Cqe ℕ) → Outcome Server
    handle_each s [] = done s
    handle_each s (c ∷ cs) = do s' ← handle s c; handle_each s' cs

    -- One batch: `buf_added` starts at 0, and the ring is advanced at the end, together with the
    -- completion queue, by the count that is the second component.
    pub handle_all : Server → List (Cqe ℕ) → Outcome (Server × ℕ)
    unfolding handle_each
    handle_all s cqes = do
      s' ← handle_each (record s { buf_added = 0 }) cqes
      done (record s' { ring = s'.ring ++ (advance s'.buf_added ∷ []) }, length cqes)
