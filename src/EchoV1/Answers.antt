-- ===== src/EchoV1/Answers.antt =====
-- What the loop body does for each kind of completion, when `conns` says what the completion is.
use mathlib.Core.List.{append_assoc}
use iowrapper.Base.{
  ℕ, ◌+◌, ◌<◌, ◌≡◌, ◌⊎◌, refl, ap, Bool, true, false, none, some, [], ◌∷◌, ◌++◌, length, get_elem?,
  set, length-set, ℤ, pos, negsuc, is_le_zero, to_nat, done, >>=-eq-done, arith,
}
use iowrapper.Uring.{Sqe, Cqe, close, shutdown, Prep, accept, recv, send, row, enqueue}
use iowrapper.Registry.{register_fd}
use iowrapper.EchoV1.{
  Server, ConnInfo, accept_type, read_type, write_type, add_request, add_accept, add_socket_read,
  add_socket_write, on_accept, on_read, dispatch, handle,
}

abbrev pub entry : Server → ℕ → Prep → Sqe ℕ
entry s fd prep = record {
  prep = prep;
  flags = record { fixed_file = s.registerfiles; buffer_select = false };
  buf_group = none;
  user_data = fd;
}

abbrev pub info : ℕ → ℕ → ConnInfo
info fd type = record { fd = fd; type = type }

module _ (got : ℕ → Bool) (update : ℕ → ℤ) where
  pub add_request-done :
      (s t : Server) (fd type : ℕ) (prep : Prep)
      → add_request got update s fd type prep ≡ done t
      → (fd < length s.conns)
        × (t ≡ record s {
          sq = s.sq ++ (entry s fd prep ∷ []);
          conns = set s.conns fd (info fd type);
        })
  unfolding add_request enqueue
  add_request-done s t fd type prep h = ground arith

-- The accept branch, come through: the listening socket and the new connection n lie in the table,
-- the next accept and the first read of n are queued, and both are noted in `conns`.
pub record Accepting (l msg_len : ℕ) (s t : Server) (n : ℕ) : Type 0 where
  pub listen_in : l < length s.conns
  pub conn_in : n < length s.conns
  pub sq : t.sq ≡ s.sq ++ (entry s l (accept l) ∷ entry s n (recv n (row n) msg_len) ∷ [])
  pub conns : t.conns ≡ set (set s.conns l (info l accept_type)) n (info n read_type)
  pub calls : t.calls ≡ s.calls

-- One more request on fd, noted in `conns`.
pub record Requesting (s t : Server) (fd type : ℕ) (prep : Prep) : Type 0 where
  pub fd_in : fd < length s.conns
  pub sq : t.sq ≡ s.sq ++ (entry s fd prep ∷ [])
  pub conns : t.conns ≡ set s.conns fd (info fd type)
  pub calls : t.calls ≡ s.calls

module _ (got : ℕ → Bool) (update : ℕ → ℤ) (l msg_len : ℕ) where
  Accepting-requests :
      (s s0 s1 t : Server) (n : ℕ)
      → s0.sq ≡ s.sq
      → s0.conns ≡ s.conns
      → s0.calls ≡ s.calls
      → s0.registerfiles ≡ s.registerfiles
      → add_request got update s0 l accept_type (accept l) ≡ done s1
      → add_request got update s1 n read_type (recv n (row n) msg_len) ≡ done t
      → Accepting l msg_len s t n
  Accepting-requests s s0 s1 t n q c k f h1 h2 =
      let (b1, q1) = add_request-done got update s0 s1 l accept_type (accept l) h1 in
      let (b2, q2) = add_request-done got update s1 t n read_type (recv n (row n) msg_len) h2 in
      let m = length-set s.conns l (info l accept_type) in
      let first = entry s l (accept l) ∷ [] in
      let second = entry s n (recv n (row n) msg_len) ∷ [] in
      record {
        listen_in = rw c at b1;
        conn_in = ground (arith, m);
        sq = ground (arith, append_assoc s.sq first second);
        conns = ground arith;
        calls = ground arith;
      }

  on_accept-done :
      (s t : Server) (res : ℤ)
      → on_accept got update l msg_len s res ≡ done t
      → (n : ℕ) × (res ≡ pos n) × Accepting l msg_len s t n
  unfolding on_accept add_accept add_socket_read
  on_accept-done s t (negsuc e) h =
      let (table, _, h1) =
        >>=-eq-done (register_fd update s.registerfiles s.registered_files (negsuc e)) _ h in
      let (s1, _, h2) = >>=-eq-done (add_request got update _ l accept_type (accept l)) _ h1 in
      absurd (ground arith)
  on_accept-done s t (pos n) h =
      let (table, _, h1) =
        >>=-eq-done (register_fd update s.registerfiles s.registered_files (pos n)) _ h in
      let (s1, e1, h2) = >>=-eq-done (add_request got update _ l accept_type (accept l)) _ h1 in
      (n, refl, Accepting-requests s _ s1 t n refl refl refl refl e1 h2)

  on_read-done :
      (s t : Server) (fd : ℕ) (res : ℤ)
      → on_read got update l msg_len s fd res ≡ done t
      → ((is_le_zero res ≡ true)
          × (t.sq ≡ s.sq)
          × (t.conns ≡ s.conns)
          × (t.calls ≡ s.calls ++ (shutdown fd ∷ close fd ∷ [])))
        ⊎ Requesting s t fd write_type (send fd (row fd) (to_nat res))
  unfolding on_read add_socket_write add_request enqueue
  on_read-done s t fd res h = ground arith

  add_socket_read-done :
      (s t : Server) (fd : ℕ)
      → add_socket_read got update (record s { seen = s.seen + 1 }) (pos fd) msg_len ≡ done t
      → Requesting s t fd read_type (recv fd (row fd) msg_len)
  unfolding add_socket_read
  add_socket_read-done s t fd h =
      let (b, q) = add_request-done got update _ t fd read_type (recv fd (row fd) msg_len) h in
      record {
        fd_in = b;
        sq = ap (λ u. u.sq) q;
        conns = ap (λ u. u.conns) q;
        calls = ap (λ u. u.calls) q;
      }

  -- What a completion comes to, by the `conn_info` that its pointer finds.
  pub handle-accept :
      (s t : Server) (c : Cqe ℕ) (fd : ℕ)
      → get_elem? s.conns c.user_data ≡ some (info fd accept_type)
      → handle got update l msg_len s c ≡ done t
      → (n : ℕ) × (c.res ≡ pos n) × Accepting l msg_len s t n
  unfolding handle dispatch
  handle-accept s t c fd e h = on_accept-done s t c.res (rw (e, handle) at h)

  pub handle-read :
      (s t : Server) (c : Cqe ℕ) (fd : ℕ)
      → get_elem? s.conns c.user_data ≡ some (info fd read_type)
      → handle got update l msg_len s c ≡ done t
      → ((is_le_zero c.res ≡ true)
          × (t.sq ≡ s.sq)
          × (t.conns ≡ s.conns)
          × (t.calls ≡ s.calls ++ (shutdown fd ∷ close fd ∷ [])))
        ⊎ Requesting s t fd write_type (send fd (row fd) (to_nat c.res))
  unfolding handle dispatch
  handle-read s t c fd e h = on_read-done s t fd c.res (rw (e, handle) at h)

  pub handle-write :
      (s t : Server) (c : Cqe ℕ) (fd : ℕ)
      → get_elem? s.conns c.user_data ≡ some (info fd write_type)
      → handle got update l msg_len s c ≡ done t
      → Requesting s t fd read_type (recv fd (row fd) msg_len)
  unfolding handle dispatch
  handle-write s t c fd e h = add_socket_read-done s t fd (rw (e, handle) at h)
