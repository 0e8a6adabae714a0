-- ===== src/Demos/OneBuffer.antt =====
-- demo/tcp_iouring_send_recvmsg_echo_demo.c: recvmsg and sendmsg through one buffer that all
-- connections share, here the row 0.
pub mod Laws
mod Tests
use iowrapper.Base.{
  ℕ, ◌+◌, Bool, true, false, ◌||◌, List, [], ◌∷◌, ◌++◌, ℤ, pos, negsuc, is_neg, is_minus,
  is_le_zero, to_nat, Outcome, done, exit, ◌>>=◌, ◌>>◌, exit_if, ◌==◌, if◌then◌else◌,
}
use iowrapper.Uring.{Cqe, Call, shutdown, close, no_flags, Addr, row, enobufs, emsgsize}
use iowrapper.ConnInfo.{ConnInfo, of_user_data}
use iowrapper.IoOp.{
  Queue, max_message_len, accept_type, read_type, write_type, add_accept, add_recvmsg, add_sendmsg,
}
use iowrapper.Demos.{Env, Server, open_ring, listen_on}

abbrev pub buffer : Addr
buffer = row 0

module _ (got : ℕ → Bool) where
  pub setup : Env → Outcome (Server × ℕ)
  unfolding open_ring listen_on
  setup env = do
    open_ring env
    sockfd ← listen_on env
    sq ← add_accept got [] sockfd no_flags
    done (record { sq = sq; calls = []; seen = 0 }, sockfd)

  module _ (sockfd : ℕ) where
    on_accept : Server → ℤ → Outcome Server
    on_accept s (negsuc e) = done (record s { seen = s.seen + 1 })
    on_accept s (pos fd) = do
      sq ← add_accept got s.sq sockfd no_flags
      sq' ← add_recvmsg got sq fd buffer max_message_len no_flags
      done (record s { sq = sq'; seen = s.seen + 1 })

    -- What both branches do where the transfer failed.
    give_up : Server → ℕ → Server
    give_up s fd = record s {
      calls = s.calls ++ (shutdown sockfd ∷ close fd ∷ []);
      seen = s.seen + 1;
    }

    on_read : Server → ConnInfo → ℤ → Outcome Server
    unfolding give_up
    on_read s conn_i res =
        if is_le_zero res || (is_minus res enobufs || is_minus res emsgsize)
        then done (give_up s conn_i.fd)
        else (add_sendmsg got s.sq conn_i.fd buffer (to_nat res) no_flags >>= λ sq.
            done (record s { sq = sq; seen = s.seen + 1 }))

    on_write : Server → ConnInfo → ℤ → Outcome Server
    unfolding give_up
    on_write s conn_i res =
        if is_le_zero res
        then done (give_up s conn_i.fd)
        else (add_recvmsg got s.sq conn_i.fd buffer max_message_len no_flags >>= λ sq.
            done (record s { sq = sq; seen = s.seen + 1 }))

    pub handle : Server → Cqe ℕ → Outcome Server
    unfolding on_accept on_read on_write
    handle s cqe =
        let conn_i = of_user_data cqe.user_data in
        if conn_i.type == accept_type
        then on_accept s cqe.res
        else if conn_i.type == read_type
        then on_read s conn_i cqe.res
        else if conn_i.type == write_type
        then on_write s conn_i cqe.res
        else done (record s { seen = s.seen + 1 })

    -- One round of the loop, with what `io_uring_submit` hands over, its result unread. That this is
    -- all that is queued is assumed.
    pub round : Server → ℤ → Cqe ℕ → Outcome (Queue × Server)
    round s ret cqe = do
      exit_if (is_neg ret) 1
      s' ← handle (record s { sq = [] }) cqe
      done (s.sq, s')
