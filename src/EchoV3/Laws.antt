-- ===== src/EchoV3/Laws.antt =====
-- What the handlers of version 3 do to the counters, the tables and the buffers.
use iowrapper.Base.{
  ℕ, ◌+◌, ◌≡◌, Bool, some, ℤ, pos, negsuc, to_nat, done, >>=-eq-done, ◌==◌, if◌then◌else◌, arith,
  ◌||◌,
}
use iowrapper.Uring.{Cqe, enqueue}
use iowrapper.Registry.{register_fd}
use iowrapper.EchoV3.{
  Server, ConnInfo, Ptr, point_at, accept_type, read_type, write_type, poll_in_ready_type,
  add_accept, add_poll, add_read, add_socket_write, on_accept, on_read, on_poll, dispatch, handle,
}

abbrev is_known : ConnInfo → Bool
is_known i =
    i.type == accept_type
    || (i.type == read_type || (i.type == write_type || i.type == poll_in_ready_type))

module _ (got : ℕ → Bool) (update : ℕ → ℤ) where
  add_accept-seen : (s t : Server) (fd : ℕ) → add_accept got update s fd ≡ done t → t.seen ≡ s.seen
  unfolding add_accept enqueue
  add_accept-seen s t fd h = ground arith

  add_poll-seen : (s t : Server) (fd : ℤ) → add_poll got update s fd ≡ done t → t.seen ≡ s.seen
  unfolding add_poll enqueue
  add_poll-seen s t (pos fd) h = ground arith
  add_poll-seen s t (negsuc n) h = cc

  add_read-seen : (s t : Server) (fd n : ℕ) → add_read got update s fd n ≡ done t → t.seen ≡ s.seen
  unfolding add_read enqueue
  add_read-seen s t fd n h = ground arith

  add_socket_write-seen :
      (s t : Server) (fd n : ℕ) → add_socket_write got update s fd n ≡ done t → t.seen ≡ s.seen
  unfolding add_socket_write enqueue
  add_socket_write-seen s t fd n h = ground arith

  module _ (l msg_len : ℕ) where
    on_accept-seen :
        (s t : Server) (res : ℤ)
        → on_accept got update l msg_len s res ≡ done t
        → t.seen ≡ s.seen + 1
    unfolding on_accept
    on_accept-seen s t res h =
        let (table, _, h1) =
          >>=-eq-done (register_fd update s.registerfiles s.registered_files res) _ h in
        let (s1, e1, h2) = >>=-eq-done (add_poll got update _ res) _ h1 in
        let (s2, e2, h3) = >>=-eq-done (add_accept got update s1 l) _ h2 in
        ground (arith, add_poll-seen _ s1 res e1, add_accept-seen s1 s2 l e2)

    on_read-seen :
        (s t : Server) (fd : ℕ) (res : ℤ)
        → on_read got update l msg_len s fd res ≡ done t
        → t.seen ≡ s.seen + 1
    unfolding on_read
    on_read-seen s t fd res h =
        ground (arith, add_socket_write-seen (record s { seen = s.seen + 1 }) t fd (to_nat res))

    on_poll-seen :
        (s t : Server) (fd : ℕ) → on_poll got update l msg_len s fd ≡ done t → t.seen ≡ s.seen + 1
    unfolding on_poll
    on_poll-seen s t fd h =
        let (s1, e1, h1) = >>=-eq-done (add_read got update s fd msg_len) _ h in
        ground (arith, add_read-seen s s1 fd msg_len e1)

    -- On every branch that goes on, a completion of a known type is marked as seen exactly once,
    -- and one of an unknown type never.
    pub handle-seen :
        (s t : Server) (c : Cqe Ptr) (i : ConnInfo)
        → point_at s c.user_data ≡ some i
        → handle got update l msg_len s c ≡ done t
        → t.seen ≡ s.seen + (if is_known i then 1 else 0)
    unfolding handle dispatch
    handle-seen s t c i e h =
        let h1 = rw (e, handle) at h in
        ground (arith, on_accept-seen s t c.res, on_read-seen s t i.fd c.res, on_poll-seen s t i.fd)
