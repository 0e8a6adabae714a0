-- ===== src/Demos/GroupMsg/Laws.antt =====
-- What the handlers of the recvmsg demo do with buffers, connections and the listening socket.
use iowrapper.Base.{
  same, goes_on, goes_on-done, true, false, refl, ℕ, ◌+◌, ◌≡◌, Bool, [], ℤ, pos, negsuc, is_neg,
  is_le_zero, to_nat, done, ◌==◌, ◌&&◌, if◌then◌else◌, arith, >>=-eq-done,
}
use iowrapper.Uring.{
  recv, send, recvmsg, sendmsg, HasEntries, enqueue, Cqe, Prep, accept, dead_recvmsg, dead_sendmsg,
  provide_buffers, no_flags, select_buffer, row, bid_of_flags,
}
use iowrapper.ConnInfo.{ConnInfo, of_user_data}
use iowrapper.IoOp.{
  max_message_len, read_type, write_type, prov_buf_type, add_accept, add_provide_buf,
  add_recvmsg_from_group_buff, add_sendmsg_from_group_buff,
}
use iowrapper.IoOp.Weights.{
  weight, add_accept-weight, add_provide_buf-weight, add_recvmsg_from_group_buff-weight,
  add_sendmsg_from_group_buff-weight,
}
use iowrapper.Demos.{Server}
use iowrapper.Demos.Weights.{asked, listens, arrives}
use iowrapper.Demos.GroupMsg.{group_id, on_accept, on_read, on_write, handle, round}

module _ (w : Prep → ℕ) (got : ℕ → Bool) (sockfd stale : ℕ) where
  on_accept-weight :
      (s t : Server) (res : ℤ)
      → on_accept got sockfd stale s res ≡ done t
      → weight w t.sq
        ≡ weight w s.sq
          + (if is_neg res then 0 else w (accept sockfd) + w (dead_recvmsg (to_nat res)))
  unfolding on_accept
  on_accept-weight s t (negsuc e) h = ground arith
  on_accept-weight s t (pos fd) h =
      let (sq, a, h1) = >>=-eq-done (add_accept got s.sq sockfd no_flags) _ h in
      let (sq', b, h2) =
        >>=-eq-done (add_recvmsg_from_group_buff got sq fd group_id max_message_len select_buffer) _
          h1 in
      ground (
        arith,
        add_accept-weight w got s.sq sq sockfd no_flags a,
        add_recvmsg_from_group_buff-weight w got sq sq' fd group_id max_message_len select_buffer b,
      )

  on_read-weight :
      (s t : Server) (i : ConnInfo) (res : ℤ) (bid : ℕ)
      → on_read got sockfd stale s i res bid ≡ done t
      → weight w t.sq
        ≡ weight w s.sq
          + (if is_le_zero res
              then w (provide_buffers (row bid) max_message_len 1 group_id bid)
              else w (dead_sendmsg i.fd))
  unfolding on_read
  on_read-weight s t i (pos n) bid h = ground (
    arith,
    add_provide_buf-weight w got s.sq t.sq bid group_id,
    add_sendmsg_from_group_buff-weight w got s.sq t.sq i.fd bid n no_flags,
  )
  on_read-weight s t i (negsuc n) bid h =
      ground (arith, add_provide_buf-weight w got s.sq t.sq bid group_id)

  on_write-weight :
      (s t : Server) (i : ConnInfo) (res : ℤ)
      → on_write got sockfd stale s i res ≡ done t
      → weight w t.sq
        ≡ weight w s.sq
          + (w (provide_buffers (row i.bid) max_message_len 1 group_id i.bid)
              + (if is_le_zero res then 0 else w (dead_recvmsg stale)))
  unfolding on_write
  on_write-weight s t i res h =
      let (sq, a, h1) = >>=-eq-done (add_provide_buf got s.sq i.bid group_id) _ h in
      ground (
        arith,
        add_provide_buf-weight w got s.sq sq i.bid group_id a,
        add_recvmsg_from_group_buff-weight w got sq t.sq stale group_id max_message_len
            select_buffer,
      )

  handle-weight :
      (s t : Server) (c : Cqe ℕ)
      → handle got sockfd stale s c ≡ done t
      → weight w t.sq
        ≡ weight w s.sq
          + asked w
              (λ fd. dead_recvmsg fd)
              (λ fd bid n. dead_sendmsg fd)
              group_id
              sockfd
              stale
              (of_user_data c.user_data)
              c.res
              (bid_of_flags c.flags)
  unfolding handle
  handle-weight s t c h =
      let i = of_user_data c.user_data in
      ground (
        arith,
        on_accept-weight s t c.res,
        on_read-weight s t i c.res (bid_of_flags c.flags),
        on_write-weight s t i c.res,
      )

-- A provision that failed.
abbrev pub failed_provision : Cqe ℕ → Bool
failed_provision c = (of_user_data c.user_data).type == prov_buf_type && is_neg c.res

-- The provisions of buffer b, and the completions that call for one: a receive that failed and whose
-- flags name b, whether or not it took a buffer, and every send from b.
abbrev pub provides : ℕ → Prep → ℕ
provides b (provide_buffers (row n) len nr gid bid) = same n b
provides b p = 0

abbrev pub provided_for : ℕ → Cqe ℕ → ℕ
provided_for b c =
    let i = of_user_data c.user_data in
    if i.type == read_type
    then if is_le_zero c.res then same (bid_of_flags c.flags) b else 0
    else if i.type == write_type
    then same i.bid b
    else 0

-- The transfers whose message is still there when they are submitted.
abbrev pub is_alive : Prep → ℕ
is_alive (recv n a k) = 1
is_alive (send n a k) = 1
is_alive (recvmsg n a k) = 1
is_alive (sendmsg n a k) = 1
is_alive p = 0

module _ (got : ℕ → Bool) (sockfd stale : ℕ) where
  asked_by : (Prep → ℕ) → Cqe ℕ → ℕ
  asked_by w c =
      asked w (λ fd. dead_recvmsg fd) (λ fd bid n. dead_sendmsg fd) group_id sockfd stale
        (of_user_data c.user_data) c.res (bid_of_flags c.flags)

  asked-provides : (b : ℕ) (c : Cqe ℕ) → asked_by (provides b) c ≡ provided_for b c
  unfolding asked_by
  asked-provides b c = ground arith

  asked-is_alive : (c : Cqe ℕ) → asked_by is_alive c ≡ 0
  unfolding asked_by
  asked-is_alive c = ground arith

  asked-listens : (c : Cqe ℕ) → asked_by listens c ≡ arrives c
  unfolding asked_by
  asked-listens c = ground arith

  on_accept-seen :
      (s t : Server) (res : ℤ) → on_accept got sockfd stale s res ≡ done t → t.seen ≡ s.seen + 1
  unfolding on_accept
  on_accept-seen s t (negsuc e) h = ground arith
  on_accept-seen s t (pos fd) h =
      let (sq, a, h1) = >>=-eq-done (add_accept got s.sq sockfd no_flags) _ h in
      let (sq', b, h2) =
        >>=-eq-done (add_recvmsg_from_group_buff got sq fd group_id max_message_len select_buffer) _
          h1 in
      ground arith

  on_read-seen :
      (s t : Server) (i : ConnInfo) (res : ℤ) (bid : ℕ)
      → on_read got sockfd stale s i res bid ≡ done t
      → t.seen ≡ s.seen + 1
  unfolding on_read
  on_read-seen s t i res bid h = ground arith

  on_write-seen :
      (s t : Server) (i : ConnInfo) (res : ℤ)
      → on_write got sockfd stale s i res ≡ done t
      → t.seen ≡ s.seen + 1
  unfolding on_write
  on_write-seen s t i res h = ground arith

  handle-seen :
      (s t : Server) (c : Cqe ℕ)
      → handle got sockfd stale s c ≡ done t
      → t.seen ≡ s.seen + (if failed_provision c then 0 else 1)
  unfolding handle
  handle-seen s t c h =
      let i = of_user_data c.user_data in
      ground (
        arith,
        on_accept-seen s t c.res,
        on_read-seen s t i c.res (bid_of_flags c.flags),
        on_write-seen s t i c.res,
      )

module _ (got : ℕ → Bool) (sockfd stale : ℕ) (room : HasEntries got 2) where
  on_accept-goes_on :
      (s : Server) (res : ℤ)
      → goes_on (on_accept got sockfd stale (record s { sq = [] }) res) ≡ true
  unfolding on_accept add_accept add_recvmsg_from_group_buff enqueue
  on_accept-goes_on s (negsuc e) = refl
  on_accept-goes_on s (pos fd) = rw (room 0 (omega arith)) (rw (room 1 (omega arith)) refl)

  on_read-goes_on :
      (s : Server) (i : ConnInfo) (res : ℤ) (bid : ℕ)
      → goes_on (on_read got sockfd stale (record s { sq = [] }) i res bid) ≡ true
  unfolding on_read add_provide_buf add_sendmsg_from_group_buff enqueue
  on_read-goes_on s i res bid = ground (arith, room 0 (omega arith))

  on_write-goes_on :
      (s : Server) (i : ConnInfo) (res : ℤ)
      → goes_on (on_write got sockfd stale (record s { sq = [] }) i res) ≡ true
  unfolding on_write add_provide_buf add_recvmsg_from_group_buff enqueue
  on_write-goes_on s i res = rw (room 0 (omega arith)) (ground (arith, room 1 (omega arith)))

  handle-goes_on :
      (s : Server) (c : Cqe ℕ) → goes_on (handle got sockfd stale (record s { sq = [] }) c) ≡ true
  unfolding handle
  handle-goes_on s c =
      let i = of_user_data c.user_data in
      ground (
        arith,
        on_accept-goes_on s c.res,
        on_read-goes_on s i c.res (bid_of_flags c.flags),
        on_write-goes_on s i c.res,
      )

  -- If an empty queue hands out two entries and the wait succeeds, a round of the loop goes on: a
  -- provision of a buffer is queued for a receive that failed and whose flags name the buffer, also if
  -- it took none, and for every send from it, and for no other completion; one accept is queued if the
  -- completion is that of an accept that succeeded, and none otherwise, also if it failed; no transfer
  -- that is queued has a message that is still there when the next round submits it; and the completion
  -- is marked as seen, unless it is that of a provision that failed.
  pub round-effects :
      (s : Server) (ret : ℤ) (c : Cqe ℕ) (b : ℕ)
      → is_neg ret ≡ false
      → (t : Server) × (round got sockfd stale s ret c ≡ done (s.sq, t))
        × (weight (provides b) t.sq ≡ provided_for b c)
        × (weight listens t.sq ≡ arrives c)
        × (weight is_alive t.sq ≡ 0)
        × (t.seen ≡ s.seen + (if failed_provision c then 0 else 1))
  unfolding round weight asked_by
  round-effects s ret c b h =
      let s0 : Server = record s { sq = [] } in
      let (t, a) = goes_on-done (handle got sockfd stale s0 c) (handle-goes_on s c) in
      (
        t,
        rw (h, a),
        omega (
          arith,
          handle-weight (provides b) got sockfd stale s0 t c a,
          asked-provides got sockfd stale b c,
        ),
        omega (
          arith,
          handle-weight listens got sockfd stale s0 t c a,
          asked-listens got sockfd stale c,
        ),
        omega (
          arith,
          handle-weight is_alive got sockfd stale s0 t c a,
          asked-is_alive got sockfd stale c,
        ),
        handle-seen got sockfd stale s0 t c a,
      )
