-- ===== src/Coroutine/Protocol.antt =====
-- The coroutine server compared with io_uring_echo_server.c, by what the two ask for.
use mathlib.Core.List.{append-nil}
use iowrapper.Base.{
  ℕ, ◌+◌, ◌≤◌, ◌≡◌, refl, sym, ◌∙◌, ap, Bool, true, false, none, some, [], ◌∷◌, ◌++◌, length, ℤ,
  pos, negsuc, is_neg, is_minus, is_le_zero, to_nat, done, if◌then◌else◌, arith,
}
use iowrapper.Uring.{Cqe, HasEntries, bid_of_flags, enobufs}
use iowrapper.ConnInfo.{ConnInfo, of_user_data}
use iowrapper.EchoV0.Requests.{accepts, reads, writes, provides, answer, handle-answer}
use iowrapper.EchoV0
use iowrapper.Coroutine.{
  Server, Task, in_echo_read, on_accept, on_read, on_write, handle, accept_type, read_type,
  write_type,
}
use iowrapper.Coroutine.Asked.{
  ask, asks, asked, asked_v0, IsAwaited, view, outcome_of-view, on_accept-asked, on_read-asked,
  on_write-asked, add_accept-asked,
}

module _ (got : ℕ → Bool) (l k : ℕ) (left : ConnInfo × ℕ) (room : HasEntries got k) where
  on_accept-view :
      (s : Server) (res : ℤ)
      → ((fd : ℕ) → res ≡ pos fd → s.connections fd ≡ none)
      → length s.sq + 2 ≤ k
      → asked (on_accept got l left s res)
        ≡ done (
            asks s.sq
            ++ (if is_neg res
                then ask l accepts ∷ []
                else ask l (reads (to_nat res)) ∷ ask l accepts ∷ []))
  unfolding on_accept
  on_accept-view s (pos fd) e h = on_accept-asked got l k left room s fd (e fd refl) h
  on_accept-view s (negsuc n) e h = add_accept-asked got l k left room s (omega arith)

  on_read-view :
      (s : Server) (fd : ℕ) (res : ℤ) (bid : ℕ)
      → (t : Task) → s.connections fd ≡ some t
      → t.point ≡ in_echo_read
      → t.conn_info.fd ≡ fd
      → is_neg res ≡ false
      → length s.sq + 2 ≤ k
      → asked (on_read got l left s fd res bid)
        ≡ done (
            asks s.sq
            ++ ((if is_le_zero res
                  then ask l (provides bid)
                  else ask l (writes fd bid (to_nat res)))
                ∷ []))
  on_read-view s fd (pos n) bid t e p f z h =
      on_read-asked got l k left room s fd n bid t e p f (omega arith)
  on_read-view s fd (negsuc n) bid t e p f z h = absurd (cc z)

  handle-view :
      (s : Server) (c : Cqe ℕ)
      → length s.sq + 2 ≤ k
      → IsAwaited s c
      → ((of_user_data c.user_data).type ≡ read_type
          → is_neg c.res ≡ true
          → is_minus c.res enobufs ≡ true)
      → asked (handle got l left s c)
        ≡ view l (asks s.sq) (answer (of_user_data c.user_data) c.res c.flags)
  unfolding handle answer
  handle-view s c h w n =
      let i = of_user_data c.user_data in
      let accepting : i.type ≡ accept_type
          → asked (on_accept got l left s c.res)
            ≡ done (
                asks s.sq
                ++ (if is_neg c.res
                    then ask l accepts ∷ []
                    else ask l (reads (to_nat c.res)) ∷ ask l accepts ∷ [])) =
        λ e. on_accept-view s c.res (λ fd. w.0 fd e) h in
      let reading : i.type ≡ read_type
          → is_neg c.res ≡ false
          → asked (on_read got l left s i.fd c.res (bid_of_flags c.flags))
            ≡ done (
                asks s.sq
                ++ ((if is_le_zero c.res
                      then ask l (provides (bid_of_flags c.flags))
                      else ask l (writes i.fd (bid_of_flags c.flags) (to_nat c.res)))
                    ∷ [])) =
        λ e z. let (t, a, b, f) = w.1 e in on_read-view s i.fd c.res _ t a b f z h in
      let writing : i.type ≡ write_type
          → asked (on_write got l left s i.fd)
            ≡ done (asks s.sq ++ (ask l (provides i.bid) ∷ ask l (reads i.fd) ∷ [])) =
        λ e.
          let (t, a, b, f, g) = w.2 e in
          on_write-asked got l k left room s i.fd t a b h ∙ cc (f, g) in
      ground (arith, accepting, reading, writing, n, append-nil (asks s.sq))

  -- On a completion that its coroutine awaits, and that is no receive that failed, the server queues
  -- entries of the same operations on the same descriptors and buffers, with the same flags and buffer
  -- groups and in the same order, as io_uring_echo_server.c, or exits with the same status, if they
  -- agreed so in what they have queued before. The lengths of receives, 0 in one and 2048 in the
  -- other, and the `user_data` are left out of the comparison.
  pub handle-asked :
      (s : Server) (s0 : EchoV0.Server) (c : Cqe ℕ)
      → length s.sq + 2 ≤ k
      → length s0.sq + 2 ≤ k
      → asks s.sq ≡ asks s0.sq
      → IsAwaited s c
      → ((of_user_data c.user_data).type ≡ read_type
          → is_neg c.res ≡ true
          → is_minus c.res enobufs ≡ true)
      → asked (handle got l left s c) ≡ asked_v0 (EchoV0.handle got l s0 c)
  unfolding handle
  handle-asked s s0 c h h0 q w n =
      handle-view s c h w n
      ∙ ap (λ x. view l x (answer (of_user_data c.user_data) c.res c.flags)) q
      ∙ sym (
          ap asked_v0 (handle-answer got l k s0 c room h0)
          ∙ outcome_of-view l s0 (answer (of_user_data c.user_data) c.res c.flags))
