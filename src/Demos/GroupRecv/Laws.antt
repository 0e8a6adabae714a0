-- ===== src/Demos/GroupRecv/Laws.antt =====
-- What the handlers of the recv demo do with buffers, connections and the listening socket.
use iowrapper.Base.{
  ℕ, ◌+◌, ◌≡◌, Bool, List, [], ◌∷◌, ℤ, pos, negsuc, is_neg, is_le_zero, to_nat, done, if◌then◌else◌,
  arith, >>=-eq-done,
}
use iowrapper.Uring.{
  Cqe, Prep, accept, recv, send, provide_buffers, no_flags, select_buffer, null, row, bid_of_flags,
}
use iowrapper.ConnInfo.{ConnInfo, of_user_data}
use iowrapper.IoOp.{max_message_len, add_accept, add_provide_buf, add_recv_from_group_buff}
use iowrapper.IoOp.Weights.{
  weight, add_accept-weight, add_provide_buf-weight, add_recv_from_group_buff-weight,
  add_send_from_group_buff-weight,
}
use iowrapper.Demos.{Server}
use iowrapper.Demos.Weights.{asked, tally}
use iowrapper.Demos.GroupRecv.{group_id, on_accept, on_read, on_write, handle, handle_each}

module _ (w : Prep → ℕ) (got : ℕ → Bool) (sockfd stale : ℕ) where
  on_accept-weight :
      (s t : Server) (res : ℤ)
      → on_accept got sockfd stale s res ≡ done t
      → weight w t.sq
        ≡ weight w s.sq
          + (if is_neg res
              then 0
              else w (accept sockfd) + w (recv (to_nat res) null max_message_len))
  unfolding on_accept
  on_accept-weight s t (negsuc e) h = ground arith
  on_accept-weight s t (pos fd) h =
      let (sq, a, h1) = >>=-eq-done (add_accept got s.sq sockfd no_flags) _ h in
      let (sq', b, h2) =
        >>=-eq-done (add_recv_from_group_buff got sq fd group_id max_message_len select_buffer) _
          h1 in
      ground (
        arith,
        add_accept-weight w got s.sq sq sockfd no_flags a,
        add_recv_from_group_buff-weight w got sq sq' fd group_id max_message_len select_buffer b,
      )

  on_read-weight :
      (s t : Server) (i : ConnInfo) (res : ℤ) (bid : ℕ)
      → on_read got sockfd stale s i res bid ≡ done t
      → weight w t.sq
        ≡ weight w s.sq
          + (if is_le_zero res
              then w (provide_buffers (row bid) max_message_len 1 group_id bid)
              else w (send i.fd (row bid) (to_nat res)))
  unfolding on_read
  on_read-weight s t i (pos n) bid h = ground (
    arith,
    add_provide_buf-weight w got s.sq t.sq bid group_id,
    add_send_from_group_buff-weight w got s.sq t.sq i.fd bid n no_flags,
  )
  on_read-weight s t i (negsuc n) bid h =
      ground (arith, add_provide_buf-weight w got s.sq t.sq bid group_id)

  on_write-weight :
      (s t : Server) (i : ConnInfo) (res : ℤ)
      → on_write got sockfd stale s i res ≡ done t
      → weight w t.sq
        ≡ weight w s.sq
          + (w (provide_buffers (row i.bid) max_message_len 1 group_id i.bid)
              + (if is_le_zero res then 0 else w (recv stale null max_message_len)))
  unfolding on_write
  on_write-weight s t i res h =
      let (sq, a, h1) = >>=-eq-done (add_provide_buf got s.sq i.bid group_id) _ h in
      ground (
        arith,
        add_provide_buf-weight w got s.sq sq i.bid group_id a,
        add_recv_from_group_buff-weight w got sq t.sq stale group_id max_message_len select_buffer,
      )

  pub handle-weight :
      (s t : Server) (c : Cqe ℕ)
      → handle got sockfd stale s c ≡ done t
      → weight w t.sq
        ≡ weight w s.sq
          + asked w
              (λ fd. recv fd null max_message_len)
              (λ fd bid n. send fd (row bid) n)
              group_id
              sockfd
              stale
              (of_user_data c.user_data)
              c.res
              (bid_of_flags c.flags)
  unfolding handle
  handle-weight s t c h =
      let i = of_user_data c.user_data in
      ground (
        arith,
        on_accept-weight s t c.res,
        on_read-weight s t i c.res (bid_of_flags c.flags),
        on_write-weight s t i c.res,
      )

module _ (got : ℕ → Bool) (sockfd : ℕ) (stale : ℕ → ℕ) where
  -- What a completion calls for, weighed, where it is the k-th of its batch.
  abbrev pub asked_at : (Prep → ℕ) → ℕ → Cqe ℕ → ℕ
  asked_at w k c =
      asked w (λ fd. recv fd null max_message_len) (λ fd bid n. send fd (row bid) n) group_id sockfd
        (stale k) (of_user_data c.user_data) c.res (bid_of_flags c.flags)

  module _ (w : Prep → ℕ) (v : ℕ → Cqe ℕ → ℕ)
      (a : (k : ℕ) (c : Cqe ℕ) → asked_at w k c ≡ v k c) where
    pub handle_each-weight :
        (s t : Server) (m n : ℕ) (cs : List (Cqe ℕ))
        → handle_each got sockfd stale s m cs ≡ done (t, n)
        → weight w t.sq ≡ weight w s.sq + tally v m cs
    unfolding handle_each
    handle_each-weight s t m n [] h = ground arith
    handle_each-weight s t m n (c ∷ cs) h =
        let (s', h1, h2) = >>=-eq-done (handle got sockfd (stale m) s c) _ h in
        omega (
          arith,
          handle-weight w got sockfd (stale m) s s' c h1,
          a m c,
          handle_each-weight s' t (m + 1) n cs h2,
        )
