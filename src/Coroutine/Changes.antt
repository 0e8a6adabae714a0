-- ===== src/Coroutine/Changes.antt =====
-- What a handled completion changes: the coroutines, and the requests on a connection.
use iowrapper.Base.{
  ℕ, ◌+◌, ◌≡◌, ◌∙◌, ap, Bool, true, false, Option, none, some, List, [], ◌∷◌, ◌++◌, length, is_neg,
  to_nat, same, done, ◌==◌, if◌then◌else◌, total, All, Bool-cases, inl, inr, >>=-eq-done,
}
use mathlib.Core.List.{append_assoc}
use iowrapper.Uring.{
  Sqe, Cqe, Prep, Flags, no_flags, select_buffer, recv, send, provide_buffers, null, row, enqueue,
}
use iowrapper.ConnInfo.{ConnInfo, to_user_data, of_user_data}
use iowrapper.Coroutine.{
  Server, Task, Point, initial_suspend, in_echo_read, in_echo_write, put, submit_entry, echo_read,
  echo_write, echo_add_buffer, resume, accept_type, read_type, write_type, prov_buf_type, group_id,
  max_message_len,
}

abbrev pub info : Sqe ℕ → ConnInfo
info e = of_user_data e.user_data

-- The receives and the sends on connection fd, and the accepts that bring it.
abbrev pub serves : ℕ → ConnInfo → ℕ
serves fd i =
    if i.type == read_type then same i.fd fd else if i.type == write_type then same i.fd fd else 0

abbrev pub brings : ℕ → Cqe ℕ → ℕ
brings fd c =
    if (of_user_data c.user_data).type == accept_type
    then if is_neg c.res then 0 else same (to_nat c.res) fd
    else 0

abbrev pub present : Option Task → ℕ
present none = 0
present (some t) = 1

-- The coroutine that waits at p for a request that carries i.
abbrev pub Waits : (ℕ → Option Task) → Point → ConnInfo → Type 0
Waits m p i = (t : Task) × (m i.fd ≡ some t) × (t.point ≡ p) × (t.conn_info ≡ i)

abbrev pub IsPending : (ℕ → Option Task) → ConnInfo → Type 0
IsPending m i =
    (i.type ≡ read_type → Waits m in_echo_read i) × (i.type ≡ write_type → Waits m in_echo_write i)

-- What the server is after it has handled c: either no coroutine has moved, or that of fd has, and
-- then what it asks for now is all that is asked for on fd.
pub data Change (s t : Server) (c : Cqe ℕ) : Type 0 where
  quiet :
      (es : List (Sqe ℕ))
      → t.sq ≡ s.sq ++ es
      → t.connections ≡ s.connections
      → ((f : ℕ) → total (λ e. serves f (info e)) es ≡ 0)
      → All (λ e. IsPending t.connections (info e)) es
      → ((f : ℕ) → serves f (of_user_data c.user_data) + brings f c ≡ 0)
      → Change s t c
  moves :
      (fd : ℕ) (o : Option Task) (es : List (Sqe ℕ))
      → t.sq ≡ s.sq ++ es
      → ((f : ℕ) → t.connections f ≡ put s.connections fd o f)
      → ((f : ℕ) → total (λ e. serves f (info e)) es ≡ (if fd == f then present o else 0))
      → All (λ e. IsPending t.connections (info e)) es
      → ((f : ℕ) → serves f (of_user_data c.user_data) + brings f c ≡ same fd f)
      → Change s t c

-- An entry of the queue, as a builder makes it.
abbrev pub entry_of : Prep → Flags → Option ℕ → ConnInfo → Sqe ℕ
entry_of prep flags group i = record {
  prep = prep;
  flags = flags;
  buf_group = group;
  user_data = to_user_data i;
}

-- The coroutine under `key` that has carried the request i waits at p.
abbrev pub awaiting : Server → ℕ → Task → ConnInfo → Point → Sqe ℕ → Server
awaiting s key t i p e = record s {
  sq = s.sq ++ (e ∷ []);
  connections = put s.connections key (some (record t { conn_info = i; point = p }));
}

abbrev pub read_info : Task → ConnInfo
read_info t = record t.conn_info { type = read_type }

abbrev pub write_info : Task → ConnInfo
write_info t = record t.conn_info { type = write_type }

abbrev pub buf_info : Task → ConnInfo
buf_info t = record t.conn_info { type = prov_buf_type }

abbrev pub read_entry : Task → ℕ → Flags → Sqe ℕ
read_entry t n flags = entry_of (recv t.conn_info.fd null n) flags (some group_id) (read_info t)

abbrev pub write_entry : Task → ℕ → Flags → Sqe ℕ
write_entry t n flags =
    entry_of (send t.conn_info.fd (row t.conn_info.bid) n) flags none (write_info t)

abbrev pub buf_entry : Task → Sqe ℕ
buf_entry t =
    entry_of (provide_buffers (row t.conn_info.bid) max_message_len 1 group_id t.conn_info.bid)
      no_flags none (buf_info t)

module _ (got : ℕ → Bool) where
  pub submit_entry-done :
      (s u : Server) (prep : Prep) (flags : Flags) (group : Option ℕ) (i : ConnInfo)
      → submit_entry got s prep flags group i ≡ done u
      → u ≡ record s { sq = s.sq ++ (entry_of prep flags group i ∷ []) }
  unfolding submit_entry enqueue
  submit_entry-done s u prep flags group i h = elim (Bool-cases (got (length s.sq))) [
    | inl g ↦ cc (rw g at h)
    | inr g ↦ absurd (cc (rw g at h))
  ]

  echo_read-done :
      (s u : Server) (key : ℕ) (t : Task) (n : ℕ) (flags : Flags)
      → echo_read got s key t n flags ≡ done u
      → u ≡ awaiting s key t (read_info t) in_echo_read (read_entry t n flags)
  unfolding echo_read
  echo_read-done s u key t n flags h =
      let (s', a, b) = >>=-eq-done (submit_entry got s _ flags (some group_id) _) _ h in
      let e = submit_entry-done s s' _ flags (some group_id) _ a in cc (b, e)

  echo_write-done :
      (s u : Server) (key : ℕ) (t : Task) (n : ℕ) (flags : Flags)
      → echo_write got s key t n flags ≡ done u
      → u ≡ awaiting s key t (write_info t) in_echo_write (write_entry t n flags)
  unfolding echo_write
  echo_write-done s u key t n flags h =
      let (s', a, b) = >>=-eq-done (submit_entry got s _ flags none _) _ h in
      let e = submit_entry-done s s' _ flags none _ a in cc (b, e)

  echo_add_buffer-done :
      (s : Server) (t : Task) (p : Server × Task)
      → echo_add_buffer got s t ≡ done p
      → (p.0 ≡ record s { sq = s.sq ++ (buf_entry t ∷ []) })
        × (p.1 ≡ record t { conn_info = buf_info t })
  unfolding echo_add_buffer
  echo_add_buffer-done s t p h =
      let (s', a, b) = >>=-eq-done (submit_entry got s _ no_flags none _) _ h in
      let e = submit_entry-done s s' _ no_flags none _ a in (cc (b, e), cc b)

  -- What `resume` comes to, by the point at which the coroutine waits.
  pub resume-begins :
      (s u : Server) (fd : ℕ) (t : Task)
      → t.point ≡ initial_suspend
      → resume got s fd t ≡ done u
      → u ≡ awaiting s fd t (read_info t) in_echo_read (read_entry t max_message_len select_buffer)
  unfolding resume
  resume-begins s u fd t p h =
      echo_read-done s u fd t max_message_len select_buffer (rw (p, resume) at h)

  pub resume-ends :
      (s u : Server) (fd : ℕ) (t : Task)
      → t.point ≡ in_echo_read
      → (t.res == 0) ≡ true
      → resume got s fd t ≡ done u
      → (u.sq ≡ s.sq ++ (buf_entry t ∷ [])) × (u.connections ≡ put s.connections fd none)
  unfolding resume
  resume-ends s u fd t p z h =
      let (q, a, b) = >>=-eq-done (echo_add_buffer got s t) _ (rw z at (rw (p, resume) at h)) in
      let (e, _) = echo_add_buffer-done s t q a in (cc (b, e), cc (b, e))

  pub resume-writes :
      (s u : Server) (fd : ℕ) (t : Task)
      → t.point ≡ in_echo_read
      → (t.res == 0) ≡ false
      → resume got s fd t ≡ done u
      → u ≡ awaiting s fd t (write_info t) in_echo_write (write_entry t t.res no_flags)
  unfolding resume
  resume-writes s u fd t p z h =
      echo_write-done s u fd t t.res no_flags (rw z at (rw (p, resume) at h))

  pub resume-reads :
      (s u : Server) (fd : ℕ) (t : Task)
      → t.point ≡ in_echo_write
      → resume got s fd t ≡ done u
      → (u.sq ≡ s.sq ++ (buf_entry t ∷ read_entry t max_message_len select_buffer ∷ []))
        × (u.connections
            ≡ put s.connections fd
                (some (record t { conn_info = read_info t; point = in_echo_read })))
  unfolding resume
  resume-reads s u fd t p h =
      let (q, a, b) = >>=-eq-done (echo_add_buffer got s t) _ (rw (p, resume) at h) in
      let (e, e') = echo_add_buffer-done s t q a in
      let r = echo_read-done q.0 u fd q.1 max_message_len select_buffer b in
      (
        ap (λ x. x.sq) r
            ∙ ap (λ x. x.sq ++ (read_entry q.1 max_message_len select_buffer ∷ [])) e
            ∙ append_assoc s.sq _ _
            ∙ ap (λ x. s.sq ++ (buf_entry t ∷ read_entry x max_message_len select_buffer ∷ [])) e',
        cc (r, e, e'),
      )
