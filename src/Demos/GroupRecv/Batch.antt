-- ===== src/Demos/GroupRecv/Batch.antt =====
-- The loop of the recv demo over its completions, while the submission queue has room for it.
use iowrapper.Base.{
  ℕ, ◌+◌, ◌*◌, ◌≤◌, ◌≡◌, refl, Bool, true, false, List, [], ◌∷◌, length, length-append, ℤ, pos,
  negsuc, is_minus, done, goes_on, goes_on-done, ◌==◌, if◌then◌else◌, arith, All, total, ap, ◌∙◌,
}
use iowrapper.Uring.{Sqe, Cqe, HasEntries, enqueue, bid_of_flags, enobufs}
use iowrapper.ConnInfo.{ConnInfo, of_user_data}
use iowrapper.IoOp.{add_accept, add_provide_buf, add_recv_from_group_buff, add_send_from_group_buff}
use iowrapper.IoOp.Weights.{weight}
use iowrapper.Demos.{Server}
use iowrapper.Demos.Weights.{listens, arrives, receives, brings, echoes, tally, tally-total}
use iowrapper.Demos.GroupRecv.{on_accept, on_read, on_write, handle, handle_each}
use iowrapper.Demos.GroupRecv.Laws.{handle-weight, handle_each-weight}

weight-length : (sq : List (Sqe ℕ)) → weight (λ p. 1) sq ≡ length sq
unfolding weight
weight-length [] = refl
weight-length (e ∷ sq) = omega (arith, weight-length sq)

module _ (got : ℕ → Bool) (sockfd stale : ℕ) (s : Server) (one : got (length s.sq) ≡ true)
    (two : got (length s.sq + 1) ≡ true) where
  on_accept-goes_on : (res : ℤ) → goes_on (on_accept got sockfd stale s res) ≡ true
  unfolding on_accept add_accept add_recv_from_group_buff enqueue
  on_accept-goes_on (negsuc e) = refl
  on_accept-goes_on (pos fd) = rw one (rw length-append (rw two refl))

  on_read-goes_on :
      (i : ConnInfo) (res : ℤ) (bid : ℕ) → goes_on (on_read got sockfd stale s i res bid) ≡ true
  unfolding on_read add_provide_buf add_send_from_group_buff enqueue
  on_read-goes_on i res bid = ground (arith, one)

  on_write-goes_on : (i : ConnInfo) (res : ℤ) → goes_on (on_write got sockfd stale s i res) ≡ true
  unfolding on_write add_provide_buf add_recv_from_group_buff enqueue
  on_write-goes_on i res = rw one (rw length-append (ground (arith, two)))

  handle-goes_on :
      (c : Cqe ℕ) → is_minus c.res enobufs ≡ false → goes_on (handle got sockfd stale s c) ≡ true
  unfolding handle
  handle-goes_on c h =
      let i = of_user_data c.user_data in
      ground (
        arith,
        on_accept-goes_on c.res,
        on_read-goes_on i c.res (bid_of_flags c.flags),
        on_write-goes_on i c.res,
      )

module _ (got : ℕ → Bool) (sockfd : ℕ) (stale : ℕ → ℕ) (k : ℕ) (room : HasEntries got k) where
  handle-length :
      (s t : Server) (n : ℕ) (c : Cqe ℕ)
      → handle got sockfd (stale n) s c ≡ done t
      → length t.sq ≤ length s.sq + 2
  handle-length s t n c h = ground (
    arith,
    handle-weight (λ p. 1) got sockfd (stale n) s t c h,
    weight-length s.sq,
    weight-length t.sq,
  )

  handle_each-goes_on :
      (s : Server) (n : ℕ) (cs : List (Cqe ℕ))
      → length s.sq + 2 * length cs ≤ k
      → All (λ c. is_minus c.res enobufs ≡ false) cs
      → goes_on (handle_each got sockfd stale s n cs) ≡ true
  unfolding handle_each
  handle_each-goes_on s n [] b h = refl
  handle_each-goes_on s n (c ∷ cs) b h =
      let (s', a) = goes_on-done (handle got sockfd (stale n) s c) (
        handle-goes_on got sockfd (stale n) s (room (length s.sq) (omega arith))
          (room (length s.sq + 1) (omega arith)) c h.0) in
      rw a (handle_each-goes_on s' (n + 1) cs (omega (arith, handle-length s s' n c a)) h.1)

  -- With two entries left for each completion of a list, none of which reports ENOBUFS, the loop over
  -- the list, if it were reached, would come to its end. One accept would then be queued for each
  -- accept of the list that succeeded, and none for one that failed: once an accept fails, no other
  -- is queued. And after its first receive, which its accept queues, a connection would get a receive
  -- only where the variable of another branch happens to hold it, and then for a send on whatever
  -- connection.
  pub handle_each-rearms :
      (s : Server) (n : ℕ) (cs : List (Cqe ℕ)) (fd : ℕ)
      → length s.sq + 2 * length cs ≤ k
      → All (λ c. is_minus c.res enobufs ≡ false) cs
      → (p : Server × ℕ) × (handle_each got sockfd stale s n cs ≡ done p)
        × (weight listens p.0.sq ≡ weight listens s.sq + total arrives cs)
        × (weight (receives fd) p.0.sq
            ≡ weight (receives fd) s.sq
              + tally (λ j c. brings fd c + (if stale j == fd then echoes c else 0)) n cs)
  handle_each-rearms s n cs fd fits h =
      let (p, a) =
        goes_on-done (handle_each got sockfd stale s n cs) (handle_each-goes_on s n cs fits h) in
      (
        p,
        a,
        handle_each-weight got sockfd stale listens (λ j. arrives) (λ j c. ground arith) s p.0 n p.1
              cs a
            ∙ ap (λ m. weight listens s.sq + m) (tally-total arrives n cs),
        handle_each-weight got sockfd stale (receives fd)
            (λ j c. brings fd c + (if stale j == fd then echoes c else 0)) (λ j c. ground arith) s
            p.0 n p.1 cs a,
      )
