-- ===== src/Demos/GroupMsg.antt =====
-- demo/tcp_iouring_send_recvmsg_provide_buff_echo_demo.c: recvmsg and sendmsg on a group of provided
-- buffers, one completion in each round.
pub mod Laws
mod Tests
use iowrapper.Base.{
  ℕ, ◌+◌, Bool, true, false, ◌||◌, List, [], ◌∷◌, ◌++◌, ℤ, pos, negsuc, is_neg, is_minus,
  is_le_zero, to_nat, Outcome, done, exit, ◌>>=◌, ◌>>◌, exit_if, ◌==◌, if◌then◌else◌,
}
use iowrapper.Uring.{
  Cqe, Call, shutdown, close, no_flags, select_buffer, bid_of_flags, enobufs, emsgsize,
}
use iowrapper.ConnInfo.{ConnInfo, of_user_data}
use iowrapper.IoOp.{
  Queue, max_message_len, accept_type, read_type, write_type, prov_buf_type, provide_all,
  add_accept, add_provide_buf, add_recvmsg_from_group_buff, add_sendmsg_from_group_buff,
}
use iowrapper.Demos.{Env, Server, open_ring, listen_on}

abbrev pub group_id : ℕ
group_id = 1336

module _ (got : ℕ → Bool) where
  pub setup : Env → Outcome (Queue × Server × ℕ)
  unfolding open_ring listen_on
  setup env = do
    open_ring env
    submitted ← provide_all got [] env.left group_id env.provided
    sockfd ← listen_on env
    sq ← add_accept got [] sockfd no_flags
    done (submitted, record { sq = sq; calls = []; seen = 0 }, sockfd)

  -- `stale` is what `sock_conn_fd` holds in the branch of a send, as in `GroupRecv`.
  module _ (sockfd stale : ℕ) where
    -- The completion is marked as seen before its result is tested.
    on_accept : Server → ℤ → Outcome Server
    on_accept s (negsuc e) = done (record s { seen = s.seen + 1 })
    on_accept s (pos fd) = do
      sq ← add_accept got s.sq sockfd no_flags
      sq' ← add_recvmsg_from_group_buff got sq fd group_id max_message_len select_buffer
      done (record s { sq = sq'; seen = s.seen + 1 })

    on_read : Server → ConnInfo → ℤ → ℕ → Outcome Server
    on_read s conn_i res bid =
        if is_le_zero res || (is_minus res enobufs || is_minus res emsgsize)
        then (add_provide_buf got s.sq bid group_id >>= λ sq. done (record s {
          sq = sq;
          calls = s.calls ++ (shutdown sockfd ∷ close conn_i.fd ∷ []);
          seen = s.seen + 1;
        }))
        else (add_sendmsg_from_group_buff got s.sq conn_i.fd bid (to_nat res) no_flags >>= λ sq.
            done (record s { sq = sq; seen = s.seen + 1 }))

    on_write : Server → ConnInfo → ℤ → Outcome Server
    on_write s conn_i res = add_provide_buf got s.sq conn_i.bid group_id >>= λ sq.
        if is_le_zero res
        then done (record s {
          sq = sq;
          calls = s.calls ++ (shutdown sockfd ∷ close conn_i.fd ∷ []);
          seen = s.seen + 1;
        })
        else (add_recvmsg_from_group_buff got sq stale group_id max_message_len select_buffer
            >>= λ sq'. done (record s { sq = sq'; seen = s.seen + 1 }))

    -- A provision that failed leaves the switch before the completion is marked.
    pub handle : Server → Cqe ℕ → Outcome Server
    unfolding on_accept on_read on_write
    handle s cqe =
        let conn_i = of_user_data cqe.user_data in
        if conn_i.type == accept_type
        then on_accept s cqe.res
        else if conn_i.type == read_type
        then on_read s conn_i cqe.res (bid_of_flags cqe.flags)
        else if conn_i.type == write_type
        then on_write s conn_i cqe.res
        else if conn_i.type == prov_buf_type
        then if is_neg cqe.res then done s else done (record s { seen = s.seen + 1 })
        else done (record s { seen = s.seen + 1 })

    -- One round of the loop, with what `io_uring_submit` hands over, its result unread. That this is
    -- all that is queued is assumed.
    pub round : Server → ℤ → Cqe ℕ → Outcome (Queue × Server)
    round s ret cqe = do
      exit_if (is_neg ret) 1
      s' ← handle (record s { sq = [] }) cqe
      done (s.sq, s')
