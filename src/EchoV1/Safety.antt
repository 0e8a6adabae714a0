-- ===== src/EchoV1/Safety.antt =====
-- The invariant in every state that is reached, and what faults.
use iowrapper.Base.{
  ℕ, ◌+◌, ◌≤◌, ◌≡◌, inl, inr, refl, subst, Bool, false, some, List, [], ◌∷◌, length, get_elem?,
  get_elem?-set_self, length-set, ℤ, pos, negsuc, done, fault, same, All, arith,
}
use iowrapper.Uring.{Sqe, Cqe, Prep, accept, recv, send, HasEntries, enqueue}
use iowrapper.Registry.{register_fd}
use iowrapper.EchoV1.{
  Server, accept_type, read_type, write_type, handle, add_accept, on_accept, dispatch, add_request,
  add_socket_read,
}
use iowrapper.EchoV1.System.{
  World, Step, submits, completes, handles, Reach, here, next, quiet, close_all,
}
use iowrapper.EchoV1.Answers.{
  info, entry, handle-accept, handle-read, handle-write, add_request-done,
}
use iowrapper.EchoV1.Table.{IsPending, accepting, reading, writing, load, bit, IsDone, IsConsistent}
use iowrapper.EchoV1.Consistency.{
  submits-IsConsistent, completes-IsConsistent, Requesting-IsConsistent, closing-IsConsistent,
  Accepting-IsConsistent,
}

-- When the event loop begins, with what `main` has queued.
abbrev pub start : Server → World
start s = record { server = s; flight = []; cq = []; opened = λ fd. false }

-- The type that a request of each kind has in `conns`, and the descriptor that it is on.
abbrev pub type_of : Prep → ℕ
type_of (accept fd) = accept_type
type_of (recv fd a n) = read_type
type_of p = write_type

abbrev pub fd_of : Prep → ℕ
fd_of (accept fd) = fd
fd_of (recv fd a n) = fd
fd_of (send fd a n) = fd
fd_of p = 0

module _ (got : ℕ → Bool) (update : ℕ → ℤ) (l msg_len : ℕ) where
  handles-IsConsistent :
      {w u : World} (e : Sqe ℕ) (c : Cqe ℕ) (rest : List (Sqe ℕ × Cqe ℕ)) (t : Server)
      → (q : w.cq ≡ (e, c) ∷ rest) → handle got update l msg_len (quiet w.server) c ≡ done t
      → u ≡ record w { server = t; cq = rest; opened = close_all t.calls w.opened }
      → (v : IsConsistent l w) → IsPending l w.server.conns e
      → c.user_data ≡ e.user_data
      → IsConsistent l u
  handles-IsConsistent {w} {u} e c rest t q h s v (accepting p g d) ud =
      let (n, res, r) = handle-accept got update l msg_len _ t c l (rw ud g) h in
      Accepting-IsConsistent l w e c rest q v t u msg_len n r d p res s
  handles-IsConsistent {w} {u} e c rest t q h s v (reading fd a n p g d k) ud =
      elim (handle-read got update l msg_len _ t c fd (rw ud g) h) [
        | inl (_, sq, conns, calls) ↦
            closing-IsConsistent l w e c rest q v t u fd sq conns calls d k (λ i. rw p) s
        | inr r ↦
            Requesting-IsConsistent l w e c rest q v t u fd write_type _ r d k (λ i. rw p)
              (λ g'. writing fd _ _ refl g' refl k) s
      ]
  handles-IsConsistent {w} {u} e c rest t q h s v (writing fd a n p g d k) ud =
      Requesting-IsConsistent l w e c rest q v t u fd read_type _
        (handle-write got update l msg_len _ t c fd (rw ud g) h) d k (λ i. rw p)
        (λ g'. reading fd _ _ refl g' refl k) s

  Step-IsConsistent :
      {w u : World} → Step got update l msg_len w u → IsConsistent l w → IsConsistent l u
  Step-IsConsistent (submits e) v = submits-IsConsistent l e v
  Step-IsConsistent (completes xs ys e c o f d x s) v =
      completes-IsConsistent l xs ys e c o f d x s v
  Step-IsConsistent {w} (handles e c rest t q h s) v =
      let (p, d) = (subst (All (IsDone l w.server.conns)) q v.waiting).0 in
      handles-IsConsistent e c rest t q h s v p d

  Reach-IsConsistent :
      {w u : World} → IsConsistent l w → Reach got update l msg_len w u → IsConsistent l u
  Reach-IsConsistent v here = v
  Reach-IsConsistent v (next r st) = Step-IsConsistent st (Reach-IsConsistent v r)

  start-IsConsistent :
      (s0 s : Server) → s0.sq ≡ [] → add_accept got update s0 l ≡ done s → IsConsistent l (start s)
  unfolding load add_accept
  start-IsConsistent s0 s q h =
      let (b, r) = add_request-done got update s0 s l accept_type (accept l) h in
      let g : get_elem? s.conns l ≡ some (info l accept_type) =
        rw r (get_elem?-set_self s0.conns l (info l accept_type) b) in
      let one : s.sq ≡ entry s0 l (accept l) ∷ [] = rw r (rw q) in
      record {
        queued = rw one (accepting refl g refl, tt);
        flying = tt;
        waiting = tt;
        counts = λ i. rw one (omega arith);
        listening = refl;
      }

  -- In every state that the server and the kernel reach, the entry of `conns` that a waiting
  -- completion points at names the type and the descriptor of the very request that completed,
  -- although every request on a descriptor overwrites that entry: no completion is ever taken for
  -- one of another kind or of another connection.
  pub table_agrees :
      (s0 s : Server) (w : World) (e : Sqe ℕ) (c : Cqe ℕ) (rest : List (Sqe ℕ × Cqe ℕ))
      → s0.sq ≡ []
      → add_accept got update s0 l ≡ done s
      → Reach got update l msg_len (start s) w
      → w.cq ≡ (e, c) ∷ rest
      → get_elem? w.server.conns c.user_data ≡ some (info (fd_of e.prep) (type_of e.prep))
  table_agrees s0 s w e c rest q h r x =
      let v = Reach-IsConsistent (start-IsConsistent s0 s q h) r in
      let (p, d) = (subst (All (IsDone l w.server.conns)) x v.waiting).0 in go p d
    where
      go :
          IsPending l w.server.conns e
          → c.user_data ≡ e.user_data
          → get_elem? w.server.conns c.user_data ≡ some (info (fd_of e.prep) (type_of e.prep))
      go (accepting p g u) d = rw (d, p) g
      go (reading fd a n p g u k) d = rw (d, p) g
      go (writing fd a n p g u k) d = rw (d, p) g

  -- In every state that is reached, each entry of `conns` has one pending request or completion
  -- if it is that of an open connection, one if it is that of the listening socket, and none
  -- otherwise.
  pub one_request :
      (s0 s : Server) (w : World) (i : ℕ)
      → s0.sq ≡ []
      → add_accept got update s0 l ≡ done s
      → Reach got update l msg_len (start s) w
      → load i w ≡ bit (w.opened i) + same l i
  one_request s0 s w i q h r = (Reach-IsConsistent (start-IsConsistent s0 s q h) r).counts i

  -- A failed accept is a fault whenever an entry of the submission queue is to be had: the branch
  -- tests no result, and takes minus the error number for an index of `conns` or of the table of
  -- registered files.
  pub accept_fails :
      (s : Server) (c : Cqe ℕ) (e : ℕ)
      → get_elem? s.conns c.user_data ≡ some (info l accept_type)
      → c.res ≡ negsuc e
      → HasEntries got (length s.sq + 1)
      → handle got update l msg_len s c ≡ fault
  unfolding handle dispatch on_accept add_accept add_socket_read add_request enqueue register_fd
  accept_fails s c e g r room =
      rw (g, handle) (rw r (ground (arith, room (length s.sq) (omega arith))))

  -- So is a connection whose descriptor is not below the size of `conns`.
  pub accept_beyond :
      (s : Server) (c : Cqe ℕ) (n : ℕ)
      → get_elem? s.conns c.user_data ≡ some (info l accept_type)
      → c.res ≡ pos n
      → length s.conns ≤ n
      → s.registerfiles ≡ false
      → HasEntries got (length s.sq + 1)
      → handle got update l msg_len s c ≡ fault
  unfolding handle dispatch on_accept add_accept add_socket_read add_request enqueue register_fd
  accept_beyond s c n g r b f room =
      rw (g, handle)
        (rw r (
          ground (
            arith,
            f,
            room (length s.sq) (omega arith),
            length-set s.conns l (info l accept_type),
          )))
