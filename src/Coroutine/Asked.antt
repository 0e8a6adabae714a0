-- ===== src/Coroutine/Asked.antt =====
-- What the builders and the coroutine ask for, against the entries of the requests of EchoV0.
use mathlib.Core.List.{append_assoc, map-append}
use iowrapper.Base.{
  ℕ, ◌+◌, ◌≤◌, ◌≡◌, refl, ◌∙◌, ap, Bool, Option, none, some, List, [], ◌∷◌, ◌++◌, map, length,
  length-append, pos, Outcome, done, exit, ◌>>=◌, ◌==◌, if◌then◌else◌, arith, Bool-cases, inl, inr,
}
use iowrapper.Uring.{
  Sqe, Cqe, Call, accept, recv, send, provide_buffers, null, row, Flags, Prep, no_flags,
  select_buffer, HasEntries, enqueue,
}
use iowrapper.ConnInfo.{ConnInfo, conn_info, to_user_data, of_user_data}
use iowrapper.EchoV0.Requests.{Request, accepts, reads, writes, provides, entry, outcome_of}
use iowrapper.EchoV0
use iowrapper.Coroutine.{
  Server, Task, initial_suspend, in_echo_read, in_echo_write, put, emplace, find, add_accept,
  echo_read, echo_write, echo_add_buffer, resume, on_accept, on_read, on_write, accept_type,
  read_type, write_type, prov_buf_type, group_id, max_message_len,
}

-- What an entry asks for: everything but its `user_data`, and the length of a receive as 0, since the
-- two programs write 0 and 2048 there.
pub record Ask : Type 0 where
  pub prep : Prep
  pub flags : Flags
  pub buf_group : Option ℕ

unfoldable pub ask_prep : Prep → Prep
ask_prep (recv fd a len) = recv fd a 0
ask_prep p = p

unfoldable pub ask_of : Sqe ℕ → Ask
ask_of e = record { prep = ask_prep e.prep; flags = e.flags; buf_group = e.buf_group }

unfoldable pub asks : List (Sqe ℕ) → List Ask
asks = map ask_of

-- What the entry of a request of EchoV0 asks for.
unfoldable pub ask : ℕ → Request → Ask
ask l r = ask_of (entry l r)

-- What the entries in the submission queue ask for after a step.
abbrev pub asked : Outcome Server → Outcome (List Ask)
asked m = m >>= λ s. done (asks s.sq)

abbrev pub asked_v0 : Outcome EchoV0.Server → Outcome (List Ask)
asked_v0 m = m >>= λ s. done (asks s.sq)

-- A completion is for the coroutine that waits for it: an accept brings a descriptor without a
-- coroutine, and a receive or a send completes where its coroutine waits for just that.
abbrev pub IsAwaited : Server → Cqe ℕ → Type 0
IsAwaited s c =
    let i = of_user_data c.user_data in
    ((fd : ℕ) → i.type ≡ accept_type → c.res ≡ pos fd → s.connections fd ≡ none)
    × (i.type ≡ read_type
        → (t : Task) × (s.connections i.fd ≡ some t)
          × (t.point ≡ in_echo_read)
          × (t.conn_info.fd ≡ i.fd))
    × (i.type ≡ write_type
        → (t : Task) × (s.connections i.fd ≡ some t)
          × (t.point ≡ in_echo_write)
          × (t.conn_info.fd ≡ i.fd)
          × (t.conn_info.bid ≡ i.bid))

pub asks-append : (xs ys : List (Sqe ℕ)) → asks (xs ++ ys) ≡ asks xs ++ asks ys
unfolding asks
asks-append xs ys = map-append _ xs ys

pub put_self : (m : ℕ → Option Task) (fd : ℕ) (t : Option Task) → put m fd t fd ≡ t
unfolding put
put_self m fd t = ground arith

pub find-put : (m : ℕ → Option Task) (fd : ℕ) (t : Task) → find (put m fd (some t)) fd ≡ done t
unfolding find
find-put m fd t = rw (put_self m fd (some t), find)

pub find-some : (m : ℕ → Option Task) (fd : ℕ) (t : Task) → m fd ≡ some t → find m fd ≡ done t
unfolding find
find-some m fd t e = rw (e, find)

pub emplace-none :
    (m : ℕ → Option Task) (fd : ℕ) (t : Task) → m fd ≡ none → emplace m fd t ≡ put m fd (some t)
unfolding emplace put
emplace-none m fd t e = rw (e, emplace)

asks-entries : (l : ℕ) (rs : List Request) → asks (map (entry l) rs) ≡ map (ask l) rs
unfolding asks ask
asks-entries l [] = refl
asks-entries l (r ∷ rs) = ap (◌∷◌ (ask l r)) (asks-entries l rs)

-- What the requests of an answer ask for, behind what was there.
abbrev pub view : ℕ → List Ask → Option (List Request × List Call) → Outcome (List Ask)
view l rs none = exit 1
view l rs (some a) = done (rs ++ map (ask l) a.0)

pub outcome_of-view :
    (l : ℕ) (s : EchoV0.Server) (o : Option (List Request × List Call))
    → asked_v0 (outcome_of l s o) ≡ view l (asks s.sq) o
outcome_of-view l s none = refl
outcome_of-view l s (some (rs, cs)) =
    ap done (asks-append s.sq (map (entry l) rs) ∙ ap (λ x. asks s.sq ++ x) (asks-entries l rs))

module _ (got : ℕ → Bool) (l k : ℕ) (left : ConnInfo × ℕ) (room : HasEntries got k) where
  echo_read-asked :
      (s : Server) (key : ℕ) (t : Task) (n : ℕ)
      → length s.sq + 1 ≤ k
      → (u : Server) × (echo_read got s key t n select_buffer ≡ done u)
        × (asks u.sq ≡ asks s.sq ++ (ask l (reads t.conn_info.fd) ∷ []))
        × (length u.sq ≡ length s.sq + 1)
  unfolding echo_read enqueue asks ask ask_of ask_prep
  echo_read-asked s key t n h =
      let g = room (length s.sq) (omega arith) in
      let i = record t.conn_info { type = read_type } in
      let e : Sqe ℕ = record {
        prep = recv i.fd null n;
        flags = select_buffer;
        buf_group = some group_id;
        user_data = to_user_data i;
      } in
      (
        record s {
          sq = s.sq ++ (e ∷ []);
          connections =
              put s.connections key (some (record t { conn_info = i; point = in_echo_read }));
        },
        rw g,
        asks-append s.sq (e ∷ []),
        length-append s.sq (e ∷ []),
      )

  echo_write-asked :
      (s : Server) (key : ℕ) (t : Task) (n : ℕ)
      → length s.sq + 1 ≤ k
      → (u : Server) × (echo_write got s key t n no_flags ≡ done u)
        × (asks u.sq ≡ asks s.sq ++ (ask l (writes t.conn_info.fd t.conn_info.bid n) ∷ []))
  unfolding echo_write enqueue asks ask ask_of ask_prep
  echo_write-asked s key t n h =
      let g = room (length s.sq) (omega arith) in
      let i = record t.conn_info { type = write_type } in
      let e : Sqe ℕ = record {
        prep = send i.fd (row i.bid) n;
        flags = no_flags;
        buf_group = none;
        user_data = to_user_data i;
      } in
      (
        record s {
          sq = s.sq ++ (e ∷ []);
          connections =
              put s.connections key (some (record t { conn_info = i; point = in_echo_write }));
        },
        rw g,
        asks-append s.sq (e ∷ []),
      )

  echo_add_buffer-asked :
      (s : Server) (t : Task)
      → length s.sq + 1 ≤ k
      → (u : Server) × (echo_add_buffer got s t
          ≡ done (u, record t { conn_info = record t.conn_info { type = prov_buf_type } }))
        × (asks u.sq ≡ asks s.sq ++ (ask l (provides t.conn_info.bid) ∷ []))
        × (length u.sq ≡ length s.sq + 1)
  unfolding echo_add_buffer enqueue asks ask ask_of ask_prep
  echo_add_buffer-asked s t h =
      let g = room (length s.sq) (omega arith) in
      let i = record t.conn_info { type = prov_buf_type } in
      let e : Sqe ℕ = record {
        prep = provide_buffers (row i.bid) max_message_len 1 group_id i.bid;
        flags = no_flags;
        buf_group = none;
        user_data = to_user_data i;
      } in
      (
        record s { sq = s.sq ++ (e ∷ []) },
        rw g,
        asks-append s.sq (e ∷ []),
        length-append s.sq (e ∷ []),
      )

  pub add_accept-asked :
      (s : Server)
      → length s.sq + 1 ≤ k
      → asked (add_accept got s l no_flags) ≡ done (asks s.sq ++ (ask l accepts ∷ []))
  unfolding add_accept enqueue asks ask ask_of ask_prep
  add_accept-asked s h =
      let g = room (length s.sq) (omega arith) in
      let e : Sqe ℕ = record {
        prep = accept l;
        flags = no_flags;
        buf_group = none;
        user_data = to_user_data (conn_info l accept_type 0);
      } in
      rw g (ap done (asks-append s.sq (e ∷ [])))

  pub on_accept-asked :
      (s : Server) (fd : ℕ)
      → s.connections fd ≡ none
      → length s.sq + 2 ≤ k
      → asked (on_accept got l left s (pos fd))
        ≡ done (asks s.sq ++ (ask l (reads fd) ∷ ask l accepts ∷ []))
  unfolding on_accept resume
  on_accept-asked s fd e h =
      let new : Task = record { conn_info = left.0; res = left.1; point = initial_suspend } in
      let t : Task = record new { conn_info = record left.0 { fd = fd } } in
      let m = put s.connections fd (some new) in
      let begin : (ℕ → Option Task) → Task → Outcome Server = λ c x.
        resume got (record s { connections = c }) fd
          (record x { conn_info = record x.conn_info { fd = fd } })
        >>= λ s'. add_accept got s' l no_flags in
      let (u, p, q, r) =
        echo_read-asked (record s { connections = m }) fd t max_message_len (omega arith) in
      let a = add_accept-asked u (omega (arith, r)) in
      ap (λ c. asked (find c fd >>= begin c)) (emplace-none s.connections fd new e)
      ∙ ap (λ o. asked (o >>= begin m)) (find-put s.connections fd new)
      ∙ ap (λ o. asked (o >>= λ s'. add_accept got s' l no_flags)) p
      ∙ a
      ∙ ap done (
          ap (λ x. x ++ (ask l accepts ∷ [])) q
          ∙ append_assoc (asks s.sq) (ask l (reads fd) ∷ []) (ask l accepts ∷ []))

  -- The coroutine goes on from `echo_read`, with what was received.
  resume-in_read :
      (s : Server) (fd : ℕ) (t : Task)
      → t.point ≡ in_echo_read
      → length s.sq + 1 ≤ k
      → asked (resume got s fd t)
        ≡ done (
            asks s.sq
            ++ ((if t.res == 0
                  then ask l (provides t.conn_info.bid)
                  else ask l (writes t.conn_info.fd t.conn_info.bid t.res))
                ∷ []))
  unfolding resume
  resume-in_read s fd t p h =
      let (u, a, b, _) = echo_add_buffer-asked s t h in
      let (v, c, d) = echo_write-asked s fd t t.res h in
      elim (Bool-cases (t.res == 0)) [
        | inl z ↦ rw (p, resume) (rw z (rw a (ap done b)))
        | inr z ↦ rw (p, resume) (rw z (rw c (ap done d)))
      ]

  resume-in_write :
      (s : Server) (fd : ℕ) (t : Task)
      → t.point ≡ in_echo_write
      → length s.sq + 2 ≤ k
      → asked (resume got s fd t)
        ≡ done (asks s.sq ++ (ask l (provides t.conn_info.bid) ∷ ask l (reads t.conn_info.fd) ∷ []))
  unfolding resume
  resume-in_write s fd t p h =
      let (u, a, b, c) = echo_add_buffer-asked s t (omega arith) in
      let t' : Task = record t { conn_info = record t.conn_info { type = prov_buf_type } } in
      let (v, a', b', _) = echo_read-asked u fd t' max_message_len (omega (arith, c)) in
      rw (p, resume)
        (rw a (
          rw a' (
            ap done (
              b'
              ∙ ap (λ x. x ++ (ask l (reads t.conn_info.fd) ∷ [])) b
              ∙ append_assoc (asks s.sq) (ask l (provides t.conn_info.bid) ∷ [])
                  (ask l (reads t.conn_info.fd) ∷ [])))))

  pub on_read-asked :
      (s : Server) (fd n bid : ℕ) (t : Task)
      → s.connections fd ≡ some t
      → t.point ≡ in_echo_read
      → t.conn_info.fd ≡ fd
      → length s.sq + 1 ≤ k
      → asked (on_read got l left s fd (pos n) bid)
        ≡ done
            (asks s.sq ++ ((if n == 0 then ask l (provides bid) else ask l (writes fd bid n)) ∷ []))
  unfolding on_read resume
  on_read-asked s fd n bid t e p f h =
      ap
        (λ o. asked (
          o >>= λ x.
          resume got s fd (record x { conn_info = record x.conn_info { bid = bid }; res = n })))
        (find-some s.connections fd t e)
      ∙ resume-in_read s fd (record t { conn_info = record t.conn_info { bid = bid }; res = n }) p h
      ∙ ap
          (λ x.
            done (
              asks s.sq
              ++ ((if n == 0 then ask l (provides bid) else ask l (writes x bid n)) ∷ [])))
          f

  pub on_write-asked :
      (s : Server) (fd : ℕ) (t : Task)
      → s.connections fd ≡ some t
      → t.point ≡ in_echo_write
      → length s.sq + 2 ≤ k
      → asked (on_write got l left s fd)
        ≡ done (asks s.sq ++ (ask l (provides t.conn_info.bid) ∷ ask l (reads t.conn_info.fd) ∷ []))
  unfolding on_write resume
  on_write-asked s fd t e p h =
      ap (λ o. asked (o >>= λ x. resume got s fd x)) (find-some s.connections fd t e)
      ∙ resume-in_write s fd t p h
