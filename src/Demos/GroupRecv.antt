-- ===== src/Demos/GroupRecv.antt =====
-- demo/tcp_iouring_send_recv_provide_buff_echo_demo.c: recv and send on a group of provided buffers.
pub mod Laws
pub mod Batch
mod Tests
use iowrapper.Base.{
  ℕ, ◌+◌, Bool, true, false, ◌||◌, List, [], ◌∷◌, ◌++◌, ℤ, pos, negsuc, is_neg, is_minus,
  is_le_zero, to_nat, Outcome, done, exit, fault, ◌>>=◌, ◌>>◌, exit_if, ◌==◌, if◌then◌else◌,
}
use iowrapper.Uring.{
  Cqe, Call, shutdown, close, no_flags, select_buffer, bid_of_flags, enobufs, emsgsize, efault,
}
use iowrapper.ConnInfo.{ConnInfo, of_user_data}
use iowrapper.IoOp.{
  Queue, max_message_len, accept_type, read_type, write_type, prov_buf_type, provide_all,
  add_accept, add_provide_buf, add_recv_from_group_buff, add_send_from_group_buff,
}
use iowrapper.Demos.{Env, Server, open_ring, listen_on}

abbrev pub group_id : ℕ
group_id = 1337

-- `io_uring_wait_cqe(&ring, 1)` writes a pointer to the address 1: no object is there.
abbrev pub store_at_one : Outcome (Unit {0})
store_at_one = fault

module _ (got : ℕ → Bool) where
  -- `main` before the loop, with the requests that were submitted with the buffers.
  pub setup : Env → Outcome (Queue × Server × ℕ)
  unfolding open_ring listen_on
  setup env = do
    open_ring env
    submitted ← provide_all got [] env.left group_id env.provided
    sockfd ← listen_on env
    sq ← add_accept got [] sockfd no_flags
    done (submitted, record { sq = sq; calls = []; seen = 0 }, sockfd)

  -- `stale` is what `sock_conn_fd` holds in the branch of a send: its declaration belongs to the
  -- branch of an accept, and the jump to the other branch passes it by, so that it may be anything,
  -- and another number for each completion.
  module _ (sockfd stale : ℕ) where
    on_accept : Server → ℤ → Outcome Server
    on_accept s (negsuc e) = done s
    on_accept s (pos fd) = do
      sq ← add_accept got s.sq sockfd no_flags
      sq' ← add_recv_from_group_buff got sq fd group_id max_message_len select_buffer
      done (record s { sq = sq' })

    on_read : Server → ConnInfo → ℤ → ℕ → Outcome Server
    on_read s conn_i res bid =
        if is_minus res efault
          || (is_minus res enobufs || (is_minus res emsgsize || is_le_zero res))
        then (add_provide_buf got s.sq bid group_id >>= λ sq.
            done
              (record s { sq = sq; calls = s.calls ++ (shutdown sockfd ∷ close conn_i.fd ∷ []) }))
        else (add_send_from_group_buff got s.sq conn_i.fd bid (to_nat res) no_flags >>= λ sq.
            done (record s { sq = sq }))

    on_write : Server → ConnInfo → ℤ → Outcome Server
    on_write s conn_i res = add_provide_buf got s.sq conn_i.bid group_id >>= λ sq.
        if is_le_zero res
        then done
            (record s { sq = sq; calls = s.calls ++ (shutdown sockfd ∷ close conn_i.fd ∷ []) })
        else (add_recv_from_group_buff got sq stale group_id max_message_len select_buffer
            >>= λ sq'. done (record s { sq = sq' }))

    -- The body of the loop over the completions; the other types are printed alone.
    pub handle : Server → Cqe ℕ → Outcome Server
    unfolding on_accept on_read on_write
    handle s cqe =
        let conn_i = of_user_data cqe.user_data in
        if is_minus cqe.res enobufs
        then exit 1
        else if conn_i.type == accept_type
        then on_accept s cqe.res
        else if conn_i.type == read_type
        then on_read s conn_i cqe.res (bid_of_flags cqe.flags)
        else if conn_i.type == write_type
        then on_write s conn_i cqe.res
        else done s

  module _ (sockfd : ℕ) (stale : ℕ → ℕ) where
    pub handle_each : Server → ℕ → List (Cqe ℕ) → Outcome (Server × ℕ)
    handle_each s count [] = done (s, count)
    handle_each s count (c ∷ cs) = do
      s' ← handle sockfd (stale count) s c
      handle_each s' (count + 1) cs

    -- One round of the loop: `ret` is the result of `io_uring_wait_cqe`, whose store through the
    -- address 1 is a fault, so that what follows a wait that succeeds is not reached. There the
    -- completions are marked as seen together. Nothing submits what is queued.
    pub handle_all : Server → ℤ → List (Cqe ℕ) → Outcome Server
    unfolding handle_each
    handle_all s ret cqes = do
      exit_if (is_neg ret) 1
      store_at_one
      p ← handle_each s 0 cqes
      done (record p.0 { seen = p.0.seen + p.1 })
