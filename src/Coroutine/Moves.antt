-- ===== src/Coroutine/Moves.antt =====
-- The branches of the loop, as changes.
use iowrapper.Base.{
  ℕ, ◌<◌, ◌^◌, ◌≡◌, refl, sym, ◌∙◌, ap, subst, Bool, Option, none, some, List, [], ◌∷◌, ◌++◌, pos,
  negsuc, Outcome, done, ◌>>=◌, ◌==◌, arith, Bool-cases, inl, inr, >>=-eq-done,
}
use mathlib.Core.List.{append_assoc}
use iowrapper.Uring.{
  Sqe, Cqe, no_flags, select_buffer, accept, recv, send, provide_buffers, null, row,
}
use iowrapper.ConnInfo.{
  ConnInfo, IsConnInfo, conn_info, conn_info-IsConnInfo, of_user_data, of_user_data-IsConnInfo,
}
use iowrapper.Coroutine.{
  Server, Task, initial_suspend, in_echo_read, in_echo_write, put, find, add_accept, resume,
  on_accept, on_read, on_write, accept_type, read_type, write_type, prov_buf_type, max_message_len,
  group_id, to_size_t,
}
use iowrapper.Coroutine.Asked.{emplace-none, find-put, find-some, put_self}
use iowrapper.Coroutine.Changes.{
  Waits, IsPending, Change, quiet, moves, entry_of, read_info, write_info, buf_info, read_entry,
  write_entry, buf_entry, submit_entry-done, resume-begins, resume-ends, resume-writes,
  resume-reads,
}
use iowrapper.Coroutine.Entries.{
  info-entry, typed, IsPending-read, IsPending-write, IsPending-other, put-put,
}

abbrev accept_entry : ℕ → Sqe ℕ
accept_entry l = entry_of (accept l) no_flags none (conn_info l accept_type 0)

module _ (got : ℕ → Bool) (l : ℕ) (left : ConnInfo × ℕ) where
  add_accept-done :
      (s u : Server)
      → add_accept got s l no_flags ≡ done u
      → u ≡ record s { sq = s.sq ++ (accept_entry l ∷ []) }
  unfolding add_accept
  add_accept-done s u h = submit_entry-done got s u _ no_flags none _ h

  -- The promise of a new coroutine, with the descriptor that `main` writes into it.
  abbrev fresh : ℕ → Task
  fresh fd = record { conn_info = record left.0 { fd = fd }; res = left.1; point = initial_suspend }

  on_accept-begins :
      (s : Server) (fd : ℕ)
      → s.connections fd ≡ none
      → (m : ℕ → Option Task) × (m
          ≡ put s.connections fd (some (record (fresh fd) { conn_info = left.0 })))
        × (on_accept got l left s (pos fd) ≡ (
            resume got (record s { connections = m }) fd (fresh fd) >>= λ s'.
            add_accept got s' l no_flags))
  unfolding on_accept
  on_accept-begins s fd e =
      let new : Task = record { conn_info = left.0; res = left.1; point = initial_suspend } in
      let m = put s.connections fd (some new) in
      let begin : (ℕ → Option Task) → Task → Outcome Server = λ c x.
        resume got (record s { connections = c }) fd
          (record x { conn_info = record x.conn_info { fd = fd } })
        >>= λ s'. add_accept got s' l no_flags in
      (
        m,
        refl,
        ap (λ c. find c fd >>= begin c) (emplace-none s.connections fd new e)
            ∙ ap (λ o. o >>= begin m) (find-put s.connections fd new),
      )

  pub on_accept-moves :
      (s u : Server) (c : Cqe ℕ) (fd : ℕ)
      → (of_user_data c.user_data).type ≡ accept_type
      → c.res ≡ pos fd
      → fd < 2 ^ 32
      → IsConnInfo left.0
      → s.connections fd ≡ none
      → on_accept got l left s (pos fd) ≡ done u
      → Change s u c
  unfolding conn_info
  on_accept-moves s u c fd ty r b v e h =
      let (m, me, opens) = on_accept-begins s fd e in
      let (s', a, h1) =
        >>=-eq-done (resume got (record s { connections = m }) fd (fresh fd)) _ (sym opens ∙ h) in
      let began = resume-begins got (record s { connections = m }) s' fd (fresh fd) refl a in
      let added = add_accept-done s' u h1 in
      let i = read_info (fresh fd) in
      let vi : IsConnInfo i =
        typed (fresh fd).conn_info read_type
          (record { fd_in = b; type_in = v.type_in; bid_in = v.bid_in }) (omega arith) in
      let es : List (Sqe ℕ) =
        read_entry (fresh fd) max_message_len select_buffer ∷ accept_entry l ∷ [] in
      let ri = info-entry (recv fd null max_message_len) select_buffer (some group_id) i vi in
      let ai =
        info-entry (accept l) no_flags none (conn_info l accept_type 0)
          (conn_info-IsConnInfo l accept_type 0) in
      let t : Task = record (fresh fd) { conn_info = i; point = in_echo_read } in
      let conn : (f : ℕ) → u.connections f ≡ put s.connections fd (some t) f = λ f.
        ap (λ x. x.connections f) added
        ∙ ap (λ x. x.connections f) began
        ∙ ap (λ x. put x fd (some t) f) me
        ∙ put-put s.connections fd _ (some t) f in
      moves fd (some t) es
        (ap (λ x. x.sq) added
          ∙ ap (λ x. x.sq ++ (accept_entry l ∷ [])) began
          ∙ append_assoc s.sq _ _)
        conn (λ f. rw (ri, ai) (ground arith))
        (
          subst (IsPending u.connections) (sym ri) (
              IsPending-read u.connections i t refl (conn fd ∙ put_self s.connections fd (some t))
                refl refl),
          (
            subst (IsPending u.connections) (sym ai) (IsPending-other u.connections _ (inl refl)),
            tt,
          ),
        )
        (λ f. ground (arith, ty, r))

  pub on_accept-fails :
      (s u : Server) (c : Cqe ℕ) (n : ℕ)
      → (of_user_data c.user_data).type ≡ accept_type
      → c.res ≡ negsuc n
      → on_accept got l left s (negsuc n) ≡ done u
      → Change s u c
  unfolding on_accept conn_info
  on_accept-fails s u c n ty r h =
      let added = add_accept-done s u h in
      let ai =
        info-entry (accept l) no_flags none (conn_info l accept_type 0)
          (conn_info-IsConnInfo l accept_type 0) in
      quiet (accept_entry l ∷ []) (ap (λ x. x.sq) added) (ap (λ x. x.connections) added)
        (λ f. rw ai (ground arith))
        (subst (IsPending u.connections) (sym ai) (IsPending-other u.connections _ (inl refl)), tt)
        (λ f. ground (arith, ty, r))

  pub on_read-moves :
      (s u : Server) (c : Cqe ℕ) (bid : ℕ)
      → let i = of_user_data c.user_data in
        i.type ≡ read_type
        → bid < 2 ^ 16
        → Waits s.connections in_echo_read i
        → on_read got l left s i.fd c.res bid ≡ done u
        → Change s u c
  unfolding on_read
  on_read-moves s u c bid ty b (t, m, p, q) h =
      let i = of_user_data c.user_data in
      let v : IsConnInfo t.conn_info =
        subst IsConnInfo (sym q) (of_user_data-IsConnInfo c.user_data) in
      let t1 : Task = record t {
        conn_info = record t.conn_info { bid = bid };
        res = to_size_t c.res;
      } in
      let v1 : IsConnInfo t1.conn_info = record {
        fd_in = v.fd_in;
        type_in = v.type_in;
        bid_in = b;
      } in
      let fd1 : t1.conn_info.fd ≡ i.fd = ap (λ x. x.fd) q in
      let (t0, a, h1) = >>=-eq-done (find s.connections i.fd) _ h in
      let t0e : t0 ≡ t = cc (a, find-some s.connections i.fd t m) in
      let h2 : resume got s i.fd t1 ≡ done u =
        ap
          (λ x.
            resume got s i.fd
              (record x { conn_info = record x.conn_info { bid = bid }; res = to_size_t c.res }))
          (sym t0e)
        ∙ h1 in
      elim (Bool-cases (t1.res == 0)) [
        | inl z ↦
            let (sq, conn) = resume-ends got s u i.fd t1 p z h2 in
            let bi =
              info-entry (provide_buffers (row bid) max_message_len 1 group_id bid) no_flags none
                (buf_info t1) (typed t1.conn_info prov_buf_type v1 (omega arith)) in
            moves i.fd none (buf_entry t1 ∷ []) sq (λ f. ap (λ x. x f) conn)
              (λ f. rw bi (ground arith))
              (
                subst (IsPending u.connections) (sym bi)
                    (IsPending-other u.connections _ (inr refl)),
                tt,
              )
              (λ f. ground (arith, ty))
        | inr z ↦
            let wrote = resume-writes got s u i.fd t1 p z h2 in
            let wi =
              info-entry (send t1.conn_info.fd (row bid) t1.res) no_flags none (write_info t1)
                (typed t1.conn_info write_type v1 (omega arith)) in
            let t2 : Task = record t1 { conn_info = write_info t1; point = in_echo_write } in
            let conn : u.connections ≡ put s.connections i.fd (some t2) =
              ap (λ x. x.connections) wrote in
            moves i.fd (some t2) (write_entry t1 t1.res no_flags ∷ []) (ap (λ x. x.sq) wrote)
              (λ f. ap (λ x. x f) conn) (λ f. rw wi (ground (arith, fd1)))
              (
                subst (IsPending u.connections) (sym wi) (
                    IsPending-write u.connections (write_info t1) t2 refl
                      (ap u.connections fd1
                        ∙ ap (λ x. x i.fd) conn
                        ∙ put_self s.connections i.fd (some t2))
                      refl refl),
                tt,
              )
              (λ f. ground (arith, ty))
      ]

  pub on_write-moves :
      (s u : Server) (c : Cqe ℕ)
      → let i = of_user_data c.user_data in
        i.type ≡ write_type
        → Waits s.connections in_echo_write i
        → on_write got l left s i.fd ≡ done u
        → Change s u c
  unfolding on_write
  on_write-moves s u c ty (t, m, p, q) h =
      let i = of_user_data c.user_data in
      let v : IsConnInfo t.conn_info =
        subst IsConnInfo (sym q) (of_user_data-IsConnInfo c.user_data) in
      let fd1 : t.conn_info.fd ≡ i.fd = ap (λ x. x.fd) q in
      let (t0, a, h1) = >>=-eq-done (find s.connections i.fd) _ h in
      let t0e : t0 ≡ t = cc (a, find-some s.connections i.fd t m) in
      let (sq, conn) = resume-reads got s u i.fd t p (ap (resume got s i.fd) (sym t0e) ∙ h1) in
      let bi =
        info-entry
          (provide_buffers (row t.conn_info.bid) max_message_len 1 group_id t.conn_info.bid)
          no_flags none (buf_info t) (typed t.conn_info prov_buf_type v (omega arith)) in
      let ri =
        info-entry (recv t.conn_info.fd null max_message_len) select_buffer (some group_id)
          (read_info t) (typed t.conn_info read_type v (omega arith)) in
      let t2 : Task = record t { conn_info = read_info t; point = in_echo_read } in
      moves i.fd (some t2) (buf_entry t ∷ read_entry t max_message_len select_buffer ∷ []) sq
        (λ f. ap (λ x. x f) conn) (λ f. rw (bi, ri) (ground (arith, fd1)))
        (
          subst (IsPending u.connections) (sym bi) (IsPending-other u.connections _ (inr refl)),
          (
            subst (IsPending u.connections) (sym ri) (
                IsPending-read u.connections (read_info t) t2 refl
                  (ap u.connections fd1
                    ∙ ap (λ x. x i.fd) conn
                    ∙ put_self s.connections i.fd (some t2))
                  refl refl),
            tt,
          ),
        )
        (λ f. ground (arith, ty))
