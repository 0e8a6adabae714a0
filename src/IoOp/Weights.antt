-- ===== src/IoOp/Weights.antt =====
-- What each builder adds to a sum over the queue, for any weight of the requests.
use iowrapper.Base.{ℕ, ◌+◌, ◌≡◌, Bool, [], ◌∷◌, done, total, total-append, arith}
use iowrapper.Uring.{
  Sqe, Prep, accept, recv, send, dead_recvmsg, dead_sendmsg, provide_buffers, Flags, Addr, null,
  row, enqueue,
}
use iowrapper.IoOp.{
  Queue, max_message_len, add_accept, add_recvmsg, add_recvmsg_from_group_buff, add_sendmsg,
  add_sendmsg_from_group_buff, add_provide_buf, add_recv_from_group_buff, add_send_from_group_buff,
}

module _ (w : Prep → ℕ) where
  unfoldable pub weight : Queue → ℕ
  weight sq = total (λ e. w e.prep) sq

  module _ (got : ℕ → Bool) where
    enqueue-weight :
        (sq sq' : Queue) (e : Sqe ℕ)
        → enqueue got sq e ≡ done sq'
        → weight sq' ≡ weight sq + w e.prep
    unfolding enqueue weight
    enqueue-weight sq sq' e h = ground (arith, total-append (λ (x : Sqe ℕ). w x.prep) sq (e ∷ []))

    pub add_accept-weight :
        (sq sq' : Queue) (fd : ℕ) (f : Flags)
        → add_accept got sq fd f ≡ done sq'
        → weight sq' ≡ weight sq + w (accept fd)
    unfolding add_accept
    add_accept-weight sq sq' fd f h = enqueue-weight sq sq' _ h

    pub add_recvmsg-weight :
        (sq sq' : Queue) (fd : ℕ) (a : Addr) (n : ℕ) (f : Flags)
        → add_recvmsg got sq fd a n f ≡ done sq'
        → weight sq' ≡ weight sq + w (dead_recvmsg fd)
    unfolding add_recvmsg
    add_recvmsg-weight sq sq' fd a n f h = enqueue-weight sq sq' _ h

    pub add_sendmsg-weight :
        (sq sq' : Queue) (fd : ℕ) (a : Addr) (n : ℕ) (f : Flags)
        → add_sendmsg got sq fd a n f ≡ done sq'
        → weight sq' ≡ weight sq + w (dead_sendmsg fd)
    unfolding add_sendmsg
    add_sendmsg-weight sq sq' fd a n f h = enqueue-weight sq sq' _ h

    pub add_recvmsg_from_group_buff-weight :
        (sq sq' : Queue) (fd g n : ℕ) (f : Flags)
        → add_recvmsg_from_group_buff got sq fd g n f ≡ done sq'
        → weight sq' ≡ weight sq + w (dead_recvmsg fd)
    unfolding add_recvmsg_from_group_buff
    add_recvmsg_from_group_buff-weight sq sq' fd g n f h = enqueue-weight sq sq' _ h

    pub add_sendmsg_from_group_buff-weight :
        (sq sq' : Queue) (fd b n : ℕ) (f : Flags)
        → add_sendmsg_from_group_buff got sq fd b n f ≡ done sq'
        → weight sq' ≡ weight sq + w (dead_sendmsg fd)
    unfolding add_sendmsg_from_group_buff
    add_sendmsg_from_group_buff-weight sq sq' fd b n f h = enqueue-weight sq sq' _ h

    pub add_recv_from_group_buff-weight :
        (sq sq' : Queue) (fd g n : ℕ) (f : Flags)
        → add_recv_from_group_buff got sq fd g n f ≡ done sq'
        → weight sq' ≡ weight sq + w (recv fd null n)
    unfolding add_recv_from_group_buff
    add_recv_from_group_buff-weight sq sq' fd g n f h = enqueue-weight sq sq' _ h

    pub add_send_from_group_buff-weight :
        (sq sq' : Queue) (fd b n : ℕ) (f : Flags)
        → add_send_from_group_buff got sq fd b n f ≡ done sq'
        → weight sq' ≡ weight sq + w (send fd (row b) n)
    unfolding add_send_from_group_buff
    add_send_from_group_buff-weight sq sq' fd b n f h = enqueue-weight sq sq' _ h

    pub add_provide_buf-weight :
        (sq sq' : Queue) (b g : ℕ)
        → add_provide_buf got sq b g ≡ done sq'
        → weight sq' ≡ weight sq + w (provide_buffers (row b) max_message_len 1 g b)
    unfolding add_provide_buf
    add_provide_buf-weight sq sq' b g h = enqueue-weight sq sq' _ h
