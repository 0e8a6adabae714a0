-- ===== src/EchoV2/Laws.antt =====
-- What the handlers of version 2 do to the ring of buffers, and from where they send.
use mathlib.Core.List.{append_assoc, append-nil, map-append}
use iowrapper.Base.{
  ℕ, ◌+◌, ◌*◌, ◌≡◌, ◌⊎◌, inl, inr, refl, ◌∙◌, Bool, true, false, Option, none, some, List, [], ◌∷◌,
  ◌++◌, map, length, length-append, exit, fault, get_elem?, ℤ, pos, negsuc, to_nat, done,
  >>=-eq-done, ◌==◌, if◌then◌else◌, arith,
}
use iowrapper.Uring.{Cqe, pool_at, enqueue, bid_of_flags}
use iowrapper.Registry.{register_fd}
use iowrapper.EchoV2.{
  Server, ConnInfo, RingCall, add, advance, nr_bufs, add_accept, add_socket_read, add_socket_write,
  int_product, on_accept, end_read, on_read, dispatch, handle, handle_each, handle_all, accept_type,
  read_type, write_type,
}

-- How the handlers give back the buffer that begins at `at` in the pool: under the identifier 0.
abbrev pub returned : ℕ → ℕ → RingCall
returned msg_len at = add (pool_at at) msg_len 0 nr_bufs 0

pub if_cases : {A : Type 0} (b : Bool) {x y z : A} → (if b then x else y) ≡ z → (x ≡ z) ⊎ (y ≡ z)
if_cases true h = inl h
if_cases false h = inr h

module _ (got : ℕ → Bool) (update : ℕ → ℤ) where
  pub add_accept-ring :
      (s t : Server) (fd : ℕ)
      → add_accept got update s fd ≡ done t
      → (t.ring ≡ s.ring) × (t.buf_added ≡ s.buf_added)
  unfolding add_accept enqueue
  add_accept-ring s t fd h = ground arith

  add_socket_read-ring :
      (s t : Server) (fd : ℤ) (n : ℕ)
      → add_socket_read got update s fd n ≡ done t
      → (t.ring ≡ s.ring) × (t.buf_added ≡ s.buf_added)
  unfolding add_socket_read enqueue
  add_socket_read-ring s t (pos fd) n h = ground arith
  add_socket_read-ring s t (negsuc m) n h = absurd (cc h)

  add_socket_write-ring :
      (n_bufs : ℕ) (s t : Server) (fd bid n : ℕ)
      → add_socket_write got update n_bufs s fd bid n ≡ done t
      → (t.ring ≡ s.ring) × (t.buf_added ≡ s.buf_added)
  unfolding add_socket_write enqueue
  add_socket_write-ring n_bufs s t fd bid n h = ground arith

  module _ (l msg_len n_bufs : ℕ) where
    on_accept-ring :
        (s t : Server) (res : ℤ)
        → on_accept got update l msg_len n_bufs s res ≡ done t
        → (t.ring ≡ s.ring) × (t.buf_added ≡ s.buf_added)
    unfolding on_accept
    on_accept-ring s t res h =
        let (table, _, h1) =
          >>=-eq-done (register_fd update s.registerfiles s.registered_files res) _ h in
        let (s1, e1, h2) = >>=-eq-done (add_socket_read got update _ res msg_len) _ h1 in
        let (p, q) = add_socket_read-ring _ s1 res msg_len e1 in
        let (p', q') = add_accept-ring s1 t l h2 in (p' ∙ p, q' ∙ q)

    abbrev pub given_back : Server → ℕ → Server
    given_back s bid = record s {
      ring = s.ring ++ (returned msg_len (msg_len * bid) ∷ []);
      buf_added = s.buf_added + 1;
    }

    end_read-ring :
        (s t : Server) (fd : ℕ) (res : ℤ) (bid : ℕ)
        → end_read got update l msg_len n_bufs s fd res bid ≡ done t
        → (t.ring ≡ s.ring) × (t.buf_added ≡ s.buf_added)
    unfolding end_read
    end_read-ring s t fd res bid h =
        ground (arith, add_socket_write-ring n_bufs s t fd bid (to_nat res))

    -- `on_read` gives the buffer back before anything else.
    pub on_read-given_back :
        (s t : Server) (fd : ℕ) (res : ℤ) (bid : ℕ)
        → on_read got update l msg_len n_bufs s fd res bid ≡ done t
        → end_read got update l msg_len n_bufs (given_back s bid) fd res bid ≡ done t
    unfolding on_read int_product
    on_read-given_back s t fd res bid h = ground arith

    on_read-ring :
        (s t : Server) (fd : ℕ) (res : ℤ) (bid : ℕ)
        → on_read got update l msg_len n_bufs s fd res bid ≡ done t
        → (t.ring ≡ s.ring ++ (returned msg_len (msg_len * bid) ∷ []))
          × (t.buf_added ≡ s.buf_added + 1)
    on_read-ring s t fd res bid h =
        end_read-ring (given_back s bid) t fd res bid (on_read-given_back s t fd res bid h)

    -- Which handler a completion came to.
    abbrev pub Handled : Server → Cqe ℕ → Server → Type 0
    Handled s c t =
        (on_accept got update l msg_len n_bufs s c.res ≡ done t)
        ⊎ (((fd : ℕ) × (on_read got update l msg_len n_bufs s fd c.res (bid_of_flags c.flags)
                ≡ done t))
            ⊎ (((fd : ℕ) × (add_socket_read got update s (pos fd) msg_len ≡ done t)) ⊎ (s ≡ t)))

    dispatch_cases :
        (s t : Server) (i : ConnInfo) (c : Cqe ℕ)
        → dispatch got update l msg_len n_bufs s i c ≡ done t
        → Handled s c t
    unfolding dispatch
    dispatch_cases s t i c h = elim (if_cases (i.type == accept_type) h) [
      | inl a ↦ inl a
      | inr h1 ↦ elim (if_cases (i.type == read_type) h1) [
        | inl r ↦ inr (inl (i.fd, r))
        | inr h2 ↦ elim (if_cases (i.type == write_type) h2) [
          | inl w ↦ inr (inr (inl (i.fd, w)))
          | inr e ↦ inr (inr (inr (cc e)))
        ]
      ]
    ]

    pub handle_cases :
        (s t : Server) (c : Cqe ℕ) → handle got update l msg_len n_bufs s c ≡ done t → Handled s c t
    unfolding handle
    handle_cases s t c h = go (get_elem? s.conns c.user_data) refl
      where
        go : (o : Option ConnInfo) → get_elem? s.conns c.user_data ≡ o → Handled s c t
        go none e = absurd (cc (rw (e, handle) at h))
        go (some i) e = dispatch_cases s t i c (rw (e, handle) at h)

    -- The buffer that a completion brings, if it comes to a connection whose last request is a
    -- receive.
    abbrev pub bids_at : ConnInfo → Cqe ℕ → List ℕ
    bids_at i c = if i.type == read_type then bid_of_flags c.flags ∷ [] else []

    -- The buffers that a batch brings, in order: those of its completions that come to a connection
    -- whose last request, at that moment, is a receive.
    unfoldable pub bids_of : Server → List (Cqe ℕ) → List ℕ
    bids_of s [] = []
    bids_of s (c ∷ cs) =
        elim (get_elem? s.conns c.user_data) [ none ↦ [] | some i ↦ bids_at i c ]
        ++ elim (handle got update l msg_len n_bufs s c) [
          | done s' ↦ bids_of s' cs
          | exit n ↦ []
          | fault ↦ []
        ]

    -- The buffers, given back.
    abbrev pub all_returned : List ℕ → List RingCall
    all_returned bs = map (λ b. returned msg_len (msg_len * b)) bs

    dispatch-ring :
        (s t : Server) (i : ConnInfo) (c : Cqe ℕ)
        → dispatch got update l msg_len n_bufs s i c ≡ done t
        → (t.ring ≡ s.ring ++ all_returned (bids_at i c))
          × (t.buf_added ≡ s.buf_added + length (bids_at i c))
    unfolding dispatch
    dispatch-ring s t i c h = ground (
      arith,
      on_accept-ring s t c.res,
      on_read-ring s t i.fd c.res (bid_of_flags c.flags),
      add_socket_read-ring s t (pos i.fd) msg_len,
      append-nil s.ring,
    )

    handle_each-ring :
        (s t : Server) (cs : List (Cqe ℕ))
        → handle_each got update l msg_len n_bufs s cs ≡ done t
        → (t.ring ≡ s.ring ++ all_returned (bids_of s cs))
          × (t.buf_added ≡ s.buf_added + length (bids_of s cs))
    unfolding handle_each bids_of handle
    handle_each-ring s t [] h = (cc (h, append-nil s.ring), ground arith)
    handle_each-ring s t (c ∷ cs) h =
        let (s1, h1, h2) = >>=-eq-done (handle got update l msg_len n_bufs s c) _ h in
        go s1 (get_elem? s.conns c.user_data) refl h1 (handle_each-ring s1 t cs h2)
      where
        go :
            (s1 : Server) (o : Option ConnInfo)
            → get_elem? s.conns c.user_data ≡ o
            → handle got update l msg_len n_bufs s c ≡ done s1
            → (t.ring ≡ s1.ring ++ all_returned (bids_of s1 cs))
              × (t.buf_added ≡ s1.buf_added + length (bids_of s1 cs))
            → (t.ring ≡ s.ring ++ all_returned (bids_of s (c ∷ cs)))
              × (t.buf_added ≡ s.buf_added + length (bids_of s (c ∷ cs)))
        go s1 none e h1 p = absurd (cc (rw (e, handle) at h1))
        go s1 (some i) e h1 (p, q) =
            let (p1, q1) = dispatch-ring s s1 i c (rw (e, handle) at h1) in
            rw h1 (
              rw e (
                cc (
                  p,
                  p1,
                  append_assoc s.ring (all_returned (bids_at i c)) (all_returned (bids_of s1 cs)),
                  map-append (λ b. returned msg_len (msg_len * b)) (bids_at i c) (bids_of s1 cs),
                ),
                omega (arith, q, q1, length-append (bids_at i c) (bids_of s1 cs)),
              ))

    -- In a batch, the buffer of every completion that comes to a receive goes back to the ring, in
    -- order, under the identifier 0 and at the offset 0, whichever it is; the ring is then advanced by
    -- the number of all of them, and the completion queue by the length of the batch.
    pub handle_all-ring :
        (s t : Server) (cs : List (Cqe ℕ)) (n : ℕ)
        → handle_all got update l msg_len n_bufs s cs ≡ done (t, n)
        → (t.ring
            ≡ s.ring
              ++ (all_returned (bids_of (record s { buf_added = 0 }) cs)
                  ++ (advance (length (bids_of (record s { buf_added = 0 }) cs)) ∷ [])))
          × (n ≡ length cs)
    unfolding handle_all
    handle_all-ring s t cs n h =
        let (s1, h1, h2) = >>=-eq-done (handle_each got update l msg_len n_bufs _ cs) _ h in
        let (p, q) = handle_each-ring (record s { buf_added = 0 }) s1 cs h1 in
        let bs = bids_of (record s { buf_added = 0 }) cs in
        let c : s1.buf_added ≡ length bs = omega (arith, q) in
        (cc (h2, p, c, append_assoc s.ring (all_returned bs) (advance (length bs) ∷ [])), cc h2)
