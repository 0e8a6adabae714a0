-- ===== src/EchoV1/Consistency.antt =====
-- Every step keeps `conns` and the pending requests in agreement.

use iowrapper.Base.{
  ℕ, ◌+◌, ◌≤◌, ◌≡◌, ◌≢◌, refl, ◌∙◌, ap, subst, Bool, some, List, [], ◌∷◌, ◌++◌, get_elem?,
  get_elem?-set_self, get_elem?-set_ne, set, length-set, pos, same, total, total-append, All,
  All-append, All-split, arith,
}
use iowrapper.Uring.{Sqe, Cqe, close, shutdown, Prep, accept, recv, row}
use iowrapper.EchoV1.{Server, accept_type, read_type}
use iowrapper.EchoV1.System.{World, Effect, close_all, quiet}
use iowrapper.EchoV1.Answers.{entry, info, Accepting, Requesting}
use iowrapper.EchoV1.Table.{
  IsPending, accepting, reading, at, at_done, arrives, load, bit, IsDone, IsConsistent, Others,
  Others-set, IsPending-listen, Effect-arrives, Effect-listening,
}

module _ (l : ℕ) where
  pub submits-IsConsistent :
      {w u : World}
      → u ≡ record w { server = record w.server { sq = [] }; flight = w.flight ++ w.server.sq }
      → IsConsistent l w
      → IsConsistent l u
  unfolding load
  submits-IsConsistent {w} {u} e v = rw e (record {
    queued = tt;
    flying = All-append (IsPending l w.server.conns) w.flight w.server.sq v.flying v.queued;
    waiting = v.waiting;
    counts = λ i. omega (arith, total-append (at i) w.flight w.server.sq, v.counts i);
    listening = v.listening;
  })

  pub completes-IsConsistent :
      {w u : World} (xs ys : List (Sqe ℕ)) (e : Sqe ℕ) (c : Cqe ℕ) (o : ℕ → Bool)
      → w.flight ≡ xs ++ (e ∷ ys)
      → c.user_data ≡ e.user_data
      → Effect e.prep c.res w.opened o
      → u ≡ record w { flight = xs ++ ys; cq = w.cq ++ ((e, c) ∷ []); opened = o }
      → IsConsistent l w
      → IsConsistent l u
  unfolding load
  completes-IsConsistent {w} {u} xs ys e c o f d x s v =
      let conns = w.server.conns in
      let (p, rest) =
        All-split (IsPending l conns) xs ys (subst (All (IsPending l conns)) f v.flying) in
      rw s (record {
        queued = v.queued;
        flying = rest;
        waiting = All-append (IsDone l conns) w.cq ((e, c) ∷ []) v.waiting ((p, d), tt);
        counts = λ i. omega (
          arith,
          ap (total (at i)) f,
          total-append (at i) xs ys,
          total-append (at i) xs (e ∷ ys),
          total-append (at_done i) w.cq ((e, c) ∷ []),
          Effect-arrives i x,
          v.counts i,
        );
        listening = Effect-listening (λ m q. IsPending-listen m p q) x v.listening;
      })

  -- The completion that is handled is taken off the queue; what is known of the others.
  module _ (w : World) (e : Sqe ℕ) (c : Cqe ℕ) (rest : List (Sqe ℕ × Cqe ℕ))
      (q : w.cq ≡ (e, c) ∷ rest) (v : IsConsistent l w) where
    head : IsDone l w.server.conns (e, c) × All (IsDone l w.server.conns) rest
    head = subst (All (IsDone l w.server.conns)) q v.waiting

    others : Others l w.server.conns w.flight w.server.sq rest
    others = record { flying = v.flying; queued = v.queued; waiting = head.1 }

    counts_head :
        (i : ℕ)
        → total (at i) w.flight
            + total (at i) w.server.sq
            + (same e.user_data i + arrives i e.prep c.res + total (at_done i) rest)
          ≡ bit (w.opened i) + same l i
    unfolding load
    counts_head i = omega (arith, ap (total (at_done i)) q, v.counts i)

    bit-le-one : (b : Bool) → bit b ≤ 1
    bit-le-one b = ground arith

    -- One request is queued on the descriptor of the completion, in the place of the old one.
    pub Requesting-IsConsistent :
        (t : Server) (u : World) (fd type : ℕ) (prep : Prep)
        → Requesting (quiet w.server) t fd type prep
        → e.user_data ≡ fd
        → fd ≢ l
        → ((i : ℕ) → arrives i e.prep c.res ≡ 0)
        → (get_elem? t.conns fd ≡ some (info fd type)
            → IsPending l t.conns (entry (quiet w.server) fd prep))
        → u ≡ record w { server = t; cq = rest; opened = close_all t.calls w.opened }
        → IsConsistent l u
    unfolding load
    Requesting-IsConsistent t u fd type prep r d n z p s =
        let conns = w.server.conns in
        let new = entry (quiet w.server) fd prep ∷ [] in
        let o : Others l t.conns w.flight w.server.sq rest = rw r.conns (
          Others-set l conns w.flight w.server.sq rest fd (info fd type)
            (ground (arith, counts_head fd, bit-le-one (w.opened fd))) others) in
        let g : get_elem? t.conns fd ≡ some (info fd type) =
          rw r.conns (get_elem?-set_self conns fd (info fd type) r.fd_in) in
        rw s (record {
          queued = rw r.sq (All-append (IsPending l t.conns) w.server.sq new o.queued (p g, tt));
          flying = o.flying;
          waiting = o.waiting;
          counts = λ i. rw r.calls (
              omega (
                arith,
                counts_head i,
                z i,
                ap (λ x. same x i) d,
                ap (total (at i)) r.sq,
                total-append (at i) w.server.sq new,
              ));
          listening = rw r.calls v.listening;
        })

    -- The peer has closed: nothing is queued, and the descriptor is closed.
    pub closing-IsConsistent :
        (t : Server) (u : World) (fd : ℕ)
        → t.sq ≡ w.server.sq
        → t.conns ≡ w.server.conns
        → t.calls ≡ shutdown fd ∷ close fd ∷ []
        → e.user_data ≡ fd
        → fd ≢ l
        → ((i : ℕ) → arrives i e.prep c.res ≡ 0)
        → u ≡ record w { server = t; cq = rest; opened = close_all t.calls w.opened }
        → IsConsistent l u
    unfolding load
    closing-IsConsistent t u fd sq conns calls d n z s = rw s (record {
      queued = rw (sq, conns) v.queued;
      flying = rw conns v.flying;
      waiting = rw conns head.1;
      counts = λ i. rw calls (
          ground (
            arith,
            counts_head i,
            z i,
            ap (λ x. same x i) d,
            ap (total (at i)) sq,
            bit-le-one (w.opened i),
          ));
      listening = rw calls (ground (arith, v.listening));
    })

    -- A connection was accepted.
    pub Accepting-IsConsistent :
        (t : Server) (u : World) (msg_len n : ℕ)
        → Accepting l msg_len (quiet w.server) t n
        → e.user_data ≡ l
        → e.prep ≡ accept l
        → c.res ≡ pos n
        → u ≡ record w { server = t; cq = rest; opened = close_all t.calls w.opened }
        → IsConsistent l u
    unfolding load
    Accepting-IsConsistent t u msg_len n r d p res s =
        let conns = w.server.conns in
        let a = info l accept_type in
        let b = info n read_type in
        let first = entry (quiet w.server) l (accept l) in
        let second = entry (quiet w.server) n (recv n (row n) msg_len) in
        let arrived : (i : ℕ) → arrives i e.prep c.res ≡ same n i = λ i. rw (p, res) in
        let ne : n ≢ l = λ x. ground (arith, counts_head l, arrived l, v.listening) in
        let o : Others l t.conns w.flight w.server.sq rest = rw r.conns (
          Others-set l (set conns l a) w.flight w.server.sq rest n b
            (ground (arith, counts_head n, arrived n, bit-le-one (w.opened n)))
            (Others-set l conns w.flight w.server.sq rest l a
              (ground (arith, counts_head l, v.listening)) others)) in
        let gl : get_elem? t.conns l ≡ some a =
          rw r.conns (
            get_elem?-set_ne (set conns l a) n l b ne ∙ get_elem?-set_self conns l a r.listen_in) in
        let gn : get_elem? t.conns n ≡ some b =
          rw r.conns
            (get_elem?-set_self (set conns l a) n b (rw (length-set conns l a) r.conn_in)) in
        rw s (record {
          queued = rw r.sq (
              All-append (IsPending l t.conns) w.server.sq (first ∷ second ∷ []) o.queued
                (accepting refl gl refl, (reading n (row n) msg_len refl gn refl ne, tt)));
          flying = o.flying;
          waiting = o.waiting;
          counts = λ i. rw r.calls (
              omega (
                arith,
                counts_head i,
                arrived i,
                ap (λ x. same x i) d,
                ap (total (at i)) r.sq,
                total-append (at i) w.server.sq (first ∷ second ∷ []),
              ));
          listening = rw r.calls v.listening;
        })
