-- ===== src/Demos/OneBuffer/Laws.antt =====
-- What the handlers of the demo with one buffer do with connections and with the buffer.
use iowrapper.Base.{
  goes_on, goes_on-done, true, false, ℕ, ◌+◌, ◌≡◌, refl, Bool, List, [], ◌∷◌, ℤ, pos, negsuc,
  is_neg, is_le_zero, to_nat, same, done, ◌==◌, if◌then◌else◌, arith, >>=-eq-done, total,
  total-append,
}
use iowrapper.Uring.{
  recvmsg, sendmsg, HasEntries, enqueue, Cqe, Call, shutdown, close, Prep, accept, recv, send,
  dead_recvmsg, dead_sendmsg, no_flags,
}
use iowrapper.ConnInfo.{ConnInfo, of_user_data}
use iowrapper.IoOp.{
  max_message_len, accept_type, read_type, write_type, add_accept, add_recvmsg, add_sendmsg,
}
use iowrapper.IoOp.Weights.{weight, add_accept-weight, add_recvmsg-weight, add_sendmsg-weight}
use iowrapper.Demos.{Server}
use iowrapper.Demos.Weights.{listens, arrives}
use iowrapper.Demos.OneBuffer.{buffer, on_accept, on_read, on_write, give_up, handle, round}

-- The requests on a connection, its closes, and the completions that concern it.
abbrev pub serves : ℕ → Prep → ℕ
serves fd (recv n a k) = same n fd
serves fd (send n a k) = same n fd
serves fd (dead_recvmsg n) = same n fd
serves fd (dead_sendmsg n) = same n fd
serves fd p = 0

abbrev pub closes : ℕ → Call → ℕ
closes fd (close n) = same n fd
closes fd (shutdown n) = 0

abbrev pub concerns : ℕ → Cqe ℕ → ℕ
concerns fd c =
    let i = of_user_data c.user_data in
    if i.type == accept_type
    then if is_neg c.res then 0 else same (to_nat c.res) fd
    else if i.type == read_type
    then same i.fd fd
    else if i.type == write_type
    then same i.fd fd
    else 0

-- The transfers whose message is still there when they are submitted.
abbrev pub is_alive : Prep → ℕ
is_alive (recv n a k) = 1
is_alive (send n a k) = 1
is_alive (recvmsg n a k) = 1
is_alive (sendmsg n a k) = 1
is_alive p = 0

-- What a completion weighs: the requests that it calls for, or `v` of the calls instead.
abbrev pub called : (Prep → ℕ) → (Call → ℕ) → ℕ → ConnInfo → ℤ → ℕ
called w v sockfd i res =
    if i.type == accept_type
    then if is_neg res then 0 else w (accept sockfd) + w (dead_recvmsg (to_nat res))
    else if i.type == read_type
    then if is_le_zero res then v (shutdown sockfd) + v (close i.fd) else w (dead_sendmsg i.fd)
    else if i.type == write_type
    then if is_le_zero res then v (shutdown sockfd) + v (close i.fd) else w (dead_recvmsg i.fd)
    else 0

module _ (w : Prep → ℕ) (v : Call → ℕ) (got : ℕ → Bool) (sockfd : ℕ) where
  abbrev load : Server → ℕ
  load s = weight w s.sq + total v s.calls

  on_accept-load :
      (s t : Server) (res : ℤ)
      → on_accept got sockfd s res ≡ done t
      → load t
        ≡ load s + (if is_neg res then 0 else w (accept sockfd) + w (dead_recvmsg (to_nat res)))
  unfolding on_accept
  on_accept-load s t (negsuc e) h = ground arith
  on_accept-load s t (pos fd) h =
      let (sq, a, h1) = >>=-eq-done (add_accept got s.sq sockfd no_flags) _ h in
      let (sq', b, h2) = >>=-eq-done (add_recvmsg got sq fd buffer max_message_len no_flags) _ h1 in
      ground (
        arith,
        add_accept-weight w got s.sq sq sockfd no_flags a,
        add_recvmsg-weight w got sq sq' fd buffer max_message_len no_flags b,
      )

  on_read-load :
      (s t : Server) (i : ConnInfo) (res : ℤ)
      → on_read got sockfd s i res ≡ done t
      → load t
        ≡ load s
          + (if is_le_zero res then v (shutdown sockfd) + v (close i.fd) else w (dead_sendmsg i.fd))
  unfolding on_read give_up
  on_read-load s t i (pos n) h = ground (
    arith,
    total-append v s.calls (shutdown sockfd ∷ close i.fd ∷ []),
    add_sendmsg-weight w got s.sq t.sq i.fd buffer n no_flags,
  )
  on_read-load s t i (negsuc n) h =
      ground (arith, total-append v s.calls (shutdown sockfd ∷ close i.fd ∷ []))

  on_write-load :
      (s t : Server) (i : ConnInfo) (res : ℤ)
      → on_write got sockfd s i res ≡ done t
      → load t
        ≡ load s
          + (if is_le_zero res then v (shutdown sockfd) + v (close i.fd) else w (dead_recvmsg i.fd))
  unfolding on_write give_up
  on_write-load s t i res h = ground (
    arith,
    total-append v s.calls (shutdown sockfd ∷ close i.fd ∷ []),
    add_recvmsg-weight w got s.sq t.sq i.fd buffer max_message_len no_flags,
  )

  pub handle-load :
      (s t : Server) (c : Cqe ℕ)
      → handle got sockfd s c ≡ done t
      → load t ≡ load s + called w v sockfd (of_user_data c.user_data) c.res
  unfolding handle
  handle-load s t c h =
      let i = of_user_data c.user_data in
      ground (arith, on_accept-load s t c.res, on_read-load s t i c.res, on_write-load s t i c.res)

total-zero : (cs : List Call) → total (λ x. 0) cs ≡ 0
total-zero [] = refl
total-zero (c ∷ cs) = omega (arith, total-zero cs)

module _ (got : ℕ → Bool) (sockfd : ℕ) (room : HasEntries got 2) where
  on_accept-goes_on :
      (s : Server) (res : ℤ) → goes_on (on_accept got sockfd (record s { sq = [] }) res) ≡ true
  unfolding on_accept add_accept add_recvmsg enqueue
  on_accept-goes_on s (negsuc e) = refl
  on_accept-goes_on s (pos fd) = rw (room 0 (omega arith)) (rw (room 1 (omega arith)) refl)

  on_read-goes_on :
      (s : Server) (i : ConnInfo) (res : ℤ)
      → goes_on (on_read got sockfd (record s { sq = [] }) i res) ≡ true
  unfolding on_read add_sendmsg enqueue
  on_read-goes_on s i res = ground (arith, room 0 (omega arith))

  on_write-goes_on :
      (s : Server) (i : ConnInfo) (res : ℤ)
      → goes_on (on_write got sockfd (record s { sq = [] }) i res) ≡ true
  unfolding on_write add_recvmsg enqueue
  on_write-goes_on s i res = ground (arith, room 0 (omega arith))

  handle-goes_on :
      (s : Server) (c : Cqe ℕ) → goes_on (handle got sockfd (record s { sq = [] }) c) ≡ true
  unfolding handle
  handle-goes_on s c =
      let i = of_user_data c.user_data in
      ground
        (arith, on_accept-goes_on s c.res, on_read-goes_on s i c.res, on_write-goes_on s i c.res)

  -- If an empty queue hands out two entries and the wait succeeds, a round of the loop goes on: a
  -- completion that concerns a connection is answered by just one request on it or by its close, and so
  -- none is left waiting; one accept is queued if the completion is that of an accept that succeeded,
  -- and none otherwise; and no transfer that the round queues has a message that is still there when
  -- the next round submits it.
  pub round-serves :
      (s : Server) (ret : ℤ) (c : Cqe ℕ) (fd : ℕ)
      → is_neg ret ≡ false
      → (t : Server) × (round got sockfd s ret c ≡ done (s.sq, t))
        × (weight (serves fd) t.sq + total (closes fd) t.calls
            ≡ total (closes fd) s.calls + concerns fd c)
        × (weight listens t.sq ≡ arrives c)
        × (weight is_alive t.sq ≡ 0)
  unfolding round weight
  round-serves s ret c fd h =
      let s0 : Server = record s { sq = [] } in
      let (t, a) = goes_on-done (handle got sockfd s0 c) (handle-goes_on s c) in
      let i = of_user_data c.user_data in
      let k1 : called (serves fd) (closes fd) sockfd i c.res ≡ concerns fd c = ground arith in
      let k2 : called listens (λ x. 0) sockfd i c.res ≡ arrives c = ground arith in
      let k3 : called is_alive (λ x. 0) sockfd i c.res ≡ 0 = ground arith in
      (
        t,
        rw (h, a),
        omega (arith, handle-load (serves fd) (closes fd) got sockfd s0 t c a, k1),
        omega (
          arith,
          handle-load listens (λ x. 0) got sockfd s0 t c a,
          k2,
          total-zero t.calls,
          total-zero s.calls,
        ),
        omega (
          arith,
          handle-load is_alive (λ x. 0) got sockfd s0 t c a,
          k3,
          total-zero t.calls,
          total-zero s.calls,
        ),
      )
