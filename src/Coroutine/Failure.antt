-- ===== src/Coroutine/Failure.antt =====
-- Receives that fail, and the `size_t` that their results become.
use iowrapper.Base.{
  ℕ, ◌+◌, ◌-◌, ◌^◌, ◌<◌, ◌≡◌, refl, ◌∙◌, ap, Bool, true, false, none, some, [], ◌∷◌, ◌++◌, length,
  negsuc, is_minus, done, ◌>>=◌, ◌==◌, arith,
}
use iowrapper.Uring.{Sqe, Cqe, send, row, no_flags, HasEntries, enqueue, bid_of_flags, enobufs}
use iowrapper.ConnInfo.{ConnInfo, of_user_data, to_user_data}
use iowrapper.Coroutine.{
  Server, Task, in_echo_read, in_echo_write, put, to_size_t, echo_write, resume, on_read, handle,
  read_type, write_type,
}
use iowrapper.Coroutine.Asked.{find-some, put_self}

handle-read :
    (got : ℕ → Bool) (l : ℕ) (left : ConnInfo × ℕ) (s : Server) (c : Cqe ℕ)
    → (of_user_data c.user_data).type ≡ read_type
    → is_minus c.res enobufs ≡ false
    → handle got l left s c
      ≡ on_read got l left s (of_user_data c.user_data).fd c.res (bid_of_flags c.flags)
unfolding handle
handle-read got l left s c ty nb = ground arith

abbrev sending : Task → Sqe ℕ
sending t = record {
  prep = send t.conn_info.fd (row t.conn_info.bid) t.res;
  flags = no_flags;
  buf_group = none;
  user_data = to_user_data (record t.conn_info { type = write_type });
}

resume-writes :
    (got : ℕ → Bool) (s : Server) (fd : ℕ) (t : Task)
    → t.point ≡ in_echo_read
    → (t.res == 0) ≡ false
    → got (length s.sq) ≡ true
    → resume got s fd t
      ≡ done (record s {
        sq = s.sq ++ (sending t ∷ []);
        connections = put s.connections fd (
            some (record t {
              conn_info = record t.conn_info { type = write_type };
              point = in_echo_write;
            }));
      })
unfolding resume echo_write enqueue
resume-writes got s fd t p z g = rw (p, resume) (rw z (rw g))

-- A receive that fails, for any reason but ENOBUFS, is taken for one of 2 ^ 64 less the error number
-- bytes, and these are sent back: the connection is neither shut down nor forgotten.
pub handle_failed :
    (got : ℕ → Bool) (l : ℕ) (left : ConnInfo × ℕ) (s : Server) (c : Cqe ℕ) (t : Task) (e : ℕ)
    → HasEntries got (length s.sq + 1)
    → (of_user_data c.user_data).type ≡ read_type
    → s.connections (of_user_data c.user_data).fd ≡ some t
    → t.point ≡ in_echo_read
    → c.res ≡ negsuc e
    → e < 2 ^ 31
    → is_minus c.res enobufs ≡ false
    → (u : Server) × (x : Sqe ℕ) × (handle got l left s c ≡ done u)
      × (u.sq ≡ s.sq ++ (x ∷ []))
      × (x.prep ≡ send t.conn_info.fd (row (bid_of_flags c.flags)) (2 ^ 64 - 1 - e))
      × (u.calls ≡ s.calls)
      × (t' : Task) × (u.connections (of_user_data c.user_data).fd ≡ some t')
      × (t'.point ≡ in_echo_write)
unfolding on_read
handle_failed got l left s c t e room ty m p r b nb =
    let fd = (of_user_data c.user_data).fd in
    let bid = bid_of_flags c.flags in
    let t1 : Task = record t {
      conn_info = record t.conn_info { bid = bid };
      res = to_size_t (negsuc e);
    } in
    let t2 : Task = record t1 {
      conn_info = record t1.conn_info { type = write_type };
      point = in_echo_write;
    } in
    (
      record s { sq = s.sq ++ (sending t1 ∷ []); connections = put s.connections fd (some t2) },
      sending t1,
      handle-read got l left s c ty nb
          ∙ ap
              (λ o. o >>= λ x.
                resume got s fd (record x {
                  conn_info = record x.conn_info { bid = bid };
                  res = to_size_t c.res;
                }))
              (find-some s.connections fd t m)
          ∙ ap
              (λ z.
                resume got s fd
                  (record t { conn_info = record t.conn_info { bid = bid }; res = to_size_t z }))
              r
          ∙ resume-writes got s fd t1 p (ground arith) (room (length s.sq) (omega arith)),
      refl,
      refl,
      refl,
      t2,
      put_self s.connections fd (some t2),
      refl,
    )
