-- ===== src/Coroutine/Waiting.antt =====
-- The coroutine server and the kernel along their runs: what a completion that waits finds.
use iowrapper.Base.{
  ℕ, ◌+◌, ◌≤◌, ◌≡◌, refl, sym, ap, subst, Bool, none, List, [], ◌∷◌, ◌++◌, map, arith, total,
  total-append, All, All-append, All-split, inl,
}
use iowrapper.Uring.{Cqe}
use iowrapper.ConnInfo.{
  ConnInfo, IsConnInfo, conn_info, conn_info-IsConnInfo, of_user_data-to_user_data, of_user_data,
}
use iowrapper.EchoV0.System.{InRange}
use iowrapper.EchoV0.Connections.{bit}
use iowrapper.Coroutine.{Server, accept_type}
use iowrapper.Coroutine.Asked.{IsAwaited}
use iowrapper.Coroutine.Changes.{info, serves, brings, present, IsPending, Change, quiet, moves}
use iowrapper.Coroutine.Entries.{IsPending-other}
use iowrapper.Coroutine.System.{
  World, Effect, accepted, other, Step, submits, completes, handles, Reach, here, next, start,
}
use iowrapper.Coroutine.Handling.{handle-Change}
use iowrapper.Coroutine.Pending.{
  pending, Sound, present-none, present-le, present-put, total-user_data, All-user_data, All-keep,
}

module _ (got : ℕ → Bool) (l : ℕ) (left : ConnInfo × ℕ) (v : IsConnInfo left.0) where
  Sound-IsAwaited :
      (w : World) (c : Cqe ℕ) (rest : List (Cqe ℕ))
      → Sound w
      → w.cq ≡ c ∷ rest
      → IsAwaited w.server c
  Sound-IsAwaited w c rest s q =
      let p =
        (subst (All (λ c. IsPending w.server.connections (of_user_data c.user_data))) q
          s.cq_in).0 in
      (
        λ fd ty r.
            present-none (w.server.connections fd)
              (ground (arith, s.fresh fd, ap (total (brings fd)) q, ty, r)),
        λ e. let (t, a, b, k) = p.0 e in (t, a, b, ap (λ x. x.fd) k),
        λ e. let (t, a, b, k) = p.1 e in (t, a, b, ap (λ x. x.fd) k, ap (λ x. x.bid) k),
      )

  Step-submits :
      (w u : World)
      → u ≡ record w {
        server = record w.server { sq = [] };
        flight = w.flight ++ map (λ e. e.user_data) w.server.sq;
      }
      → Sound w
      → Sound u
  unfolding pending
  Step-submits w u e s =
      let ds = map (λ e. e.user_data) w.server.sq in
      subst Sound (sym e) (record {
        one = λ fd. omega (
          arith,
          s.one fd,
          total-append (λ d. serves fd (of_user_data d)) w.flight ds,
          total-user_data fd w.server.sq,
        );
        fresh = s.fresh;
        sq_in = tt;
        flight_in =
            All-append _ w.flight ds s.flight_in
              (All-user_data (IsPending w.server.connections) w.server.sq s.sq_in);
        cq_in = s.cq_in;
        ranges = s.ranges;
      })

  Effect-brings :
      (c : Cqe ℕ) (o o' : ℕ → Bool) (fd n : ℕ)
      → Effect c o o'
      → n ≤ bit (o fd)
      → n + brings fd c ≤ bit (o' fd)
  Effect-brings c o o' fd n (accepted k ty r z e) h = ground (arith, ap (λ x. x fd) e, z, ty, r)
  Effect-brings c o o' fd n (other f e) h = ground (arith, ap (λ x. x fd) e, f)

  Step-completes :
      (w u : World) (xs ys : List ℕ) (c : Cqe ℕ) (o : ℕ → Bool)
      → w.flight ≡ xs ++ (c.user_data ∷ ys)
      → InRange c
      → Effect c w.opened o
      → u ≡ record w { flight = xs ++ ys; cq = w.cq ++ (c ∷ []); opened = o }
      → Sound w
      → Sound u
  unfolding pending
  Step-completes w u xs ys c o f b x e s =
      let (p, ps) =
        All-split _ xs ys
          (subst (All (λ d. IsPending w.server.connections (of_user_data d))) f s.flight_in) in
      subst Sound (sym e) (record {
        one = λ fd. omega (
          arith,
          s.one fd,
          ap (total (λ d. serves fd (of_user_data d))) f,
          total-append (λ d. serves fd (of_user_data d)) xs (c.user_data ∷ ys),
          total-append (λ d. serves fd (of_user_data d)) xs ys,
          total-append (λ c. serves fd (of_user_data c.user_data)) w.cq (c ∷ []),
        );
        fresh = λ fd. omega (
          arith,
          total-append (brings fd) w.cq (c ∷ []),
          Effect-brings c w.opened o fd _ x (s.fresh fd),
        );
        sq_in = s.sq_in;
        flight_in = ps;
        cq_in = All-append _ w.cq (c ∷ []) s.cq_in (p, tt);
        ranges = All-append InRange w.cq (c ∷ []) s.ranges (b, tt);
      })

  Sound-Change :
      (w : World) (c : Cqe ℕ) (rest : List (Cqe ℕ)) (t : Server)
      → w.cq ≡ c ∷ rest
      → Sound w
      → Change w.server t c
      → Sound (record w { server = t; cq = rest })
  unfolding pending
  Sound-Change w c rest t q s (quiet es sq conn tot pend z) = record {
    one = λ f. omega (
      arith,
      s.one f,
      ap (total (λ c. serves f (of_user_data c.user_data))) q,
      ap (total (λ e. serves f (info e))) sq,
      total-append (λ e. serves f (info e)) w.server.sq es,
      tot f,
      z f,
      ap (λ m. present (m f)) conn,
    );
    fresh =
        λ f. omega (arith, s.fresh f, ap (total (brings f)) q, z f, ap (λ m. present (m f)) conn);
    sq_in = subst (All (λ e. IsPending t.connections (info e))) (sym sq) (
        All-append _ w.server.sq es
          (subst (λ m. All (λ e. IsPending m (info e)) w.server.sq) (sym conn) s.sq_in) pend);
    flight_in =
        subst (λ m. All (λ d. IsPending m (of_user_data d)) w.flight) (sym conn) s.flight_in;
    cq_in =
        subst (λ m. All (λ c. IsPending m (of_user_data c.user_data)) rest) (sym conn)
          (subst (All (λ c. IsPending w.server.connections (of_user_data c.user_data))) q
            s.cq_in).1;
    ranges = (subst (All InRange) q s.ranges).1;
  }
  Sound-Change w c rest t q s (moves fd o es sq conn tot pend br) =
      let m = w.server.connections in
      let i = of_user_data c.user_data in
      let now = ap (total (λ c. serves fd (of_user_data c.user_data))) q in
      let come = ap (total (brings fd)) q in
      -- Nothing else is pending on fd.
      let alone : pending fd w ≡ serves fd i =
        ground (arith, s.one fd, s.fresh fd, br fd, now, come) in
      record {
        one = λ f. ground (
          arith,
          s.one f,
          s.fresh f,
          ap (total (λ c. serves f (of_user_data c.user_data))) q,
          ap (total (brings f)) q,
          ap (total (λ e. serves f (info e))) sq,
          total-append (λ e. serves f (info e)) w.server.sq es,
          tot f,
          br f,
          ap present (conn f),
          present-put m fd o f,
        );
        fresh = λ f. ground (
          arith,
          s.fresh f,
          ap (total (brings f)) q,
          s.one f,
          ap (total (λ c. serves f (of_user_data c.user_data))) q,
          br f,
          ap present (conn f),
          present-put m fd o f,
          present-le o,
        );
        sq_in = subst (All (λ e. IsPending t.connections (info e))) (sym sq) (
            All-append _ w.server.sq es
              (All-keep m t.connections fd o conn info w.server.sq (omega (arith, alone, now))
                s.sq_in)
              pend);
        flight_in =
            All-keep m t.connections fd o conn of_user_data w.flight (omega (arith, alone, now))
              s.flight_in;
        cq_in =
            All-keep m t.connections fd o conn (λ c. of_user_data c.user_data) rest
              (omega (arith, alone, now))
              (subst (All (λ c. IsPending m (of_user_data c.user_data))) q s.cq_in).1;
        ranges = (subst (All InRange) q s.ranges).1;
      }

  Step-Sound : (w u : World) → Step got l left w u → Sound w → Sound u
  Step-Sound w u (submits e) s = Step-submits w u e s
  Step-Sound w u (completes xs ys c o f b x e) s = Step-completes w u xs ys c o f b x e s
  Step-Sound w u (handles c rest t q h e) s =
      let p =
        (subst (All (λ c. IsPending w.server.connections (of_user_data c.user_data))) q
          s.cq_in).0 in
      let ch =
        handle-Change got l left w.server t c (subst (All InRange) q s.ranges).0 v
          (Sound-IsAwaited w c rest s q).0 p h in
      subst Sound (sym e) (Sound-Change w c rest t q s ch)

  start-Sound : Sound (start l)
  unfolding pending conn_info
  start-Sound =
      let i = conn_info l accept_type 0 in
      let ai = of_user_data-to_user_data i (conn_info-IsConnInfo l accept_type 0) in
      record {
        one = λ fd. omega (arith, ap (serves fd) ai);
        fresh = λ fd. omega arith;
        sq_in = (
          subst (IsPending (λ fd. none)) (sym ai) (IsPending-other (λ fd. none) i (inl refl)),
          tt,
        );
        flight_in = tt;
        cq_in = tt;
        ranges = tt;
      }

  Reach-Sound : (w : World) → Reach got l left (start l) w → Sound w
  Reach-Sound w here = start-Sound
  Reach-Sound w (next {u} r st) = Step-Sound u w st (Reach-Sound u r)

  -- In every state that is reached, the next completion is awaited: an accept brings a descriptor
  -- without a coroutine, and a receive or a send completes where its coroutine waits for just that,
  -- so that the look-up of its coroutine does not throw; and a descriptor has one request pending if
  -- it has a coroutine, and none otherwise.
  pub next-IsAwaited :
      (w : World) (c : Cqe ℕ) (rest : List (Cqe ℕ)) (fd : ℕ)
      → Reach got l left (start l) w
      → w.cq ≡ c ∷ rest
      → IsAwaited w.server c × (pending fd w ≡ present (w.server.connections fd))
  next-IsAwaited w c rest fd r q =
      let s = Reach-Sound w r in (Sound-IsAwaited w c rest s q, s.one fd)
