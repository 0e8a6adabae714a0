-- ===== src/EchoV0/Connections.antt =====
-- How the connections and the listening socket are served.
use iowrapper.Base.{
  ℕ, ◌+◌, ◌<◌, ◌≤◌, ◌^◌, ◌≡◌, refl, ◌∙◌, ap, subst, Bool, some, List, [], ◌∷◌, ℤ, arith, total,
  same, is_neg, to_nat, ◌==◌, if◌then◌else◌, All, All-append, All-split,
}
use iowrapper.Uring.{Cqe, Call, close, shutdown}
use iowrapper.ConnInfo.{ConnInfo, conn_info, of_user_data}
use iowrapper.EchoV0.{read_type, write_type, accept_type}
use iowrapper.EchoV0.Requests.{Request, accepts, reads, writes, provides, info_of, answer}
use iowrapper.EchoV0.System.{
  World, Kernel, Effect, accepted, accept_failed, received, receive_failed, no_buffer, sent,
  provided, provide_failed, InRange, Step, submits, completes, handles, Reach, here, next, start,
  close_all,
}
use iowrapper.EchoV0.Balance.{
  handles-answer, load, load-submits, load-completes, load-handles, load-ge,
}

abbrev pub is_accept : Request → ℕ
is_accept accepts = 1
is_accept (reads fd) = 0
is_accept (writes fd bid size) = 0
is_accept (provides bid) = 0

abbrev pub is_accepted : ConnInfo → ℤ → ℕ → ℕ
is_accepted info res flags = same info.type accept_type

info-is_accept :
    (l : ℕ) (r : Request) (res : ℤ) (flags : ℕ) → is_accepted (info_of l r) res flags ≡ is_accept r
unfolding conn_info
info-is_accept l accepts res flags = refl
info-is_accept l (reads fd) res flags = refl
info-is_accept l (writes fd bid n) res flags = refl
info-is_accept l (provides bid) res flags = refl

answer-accepts :
    (info : ConnInfo) (res : ℤ) (flags : ℕ) {a : List Request × List Call}
    → answer info res flags ≡ some a
    → total is_accept a.0 ≡ is_accepted info res flags
unfolding answer
answer-accepts info res flags h = ground arith

-- The requests on a connection, and the completions on it; an accept that succeeded is on the
-- connection that it accepted.
abbrev pub serves : ℕ → Request → ℕ
serves fd accepts = 0
serves fd (reads n) = same n fd
serves fd (writes n bid size) = same n fd
serves fd (provides bid) = 0

abbrev pub served : ℕ → ConnInfo → ℤ → ℕ → ℕ
served fd info res flags =
    if info.type == accept_type
    then if is_neg res then 0 else same (to_nat res) fd
    else if info.type == read_type
    then same info.fd fd
    else if info.type == write_type
    then same info.fd fd
    else 0

abbrev pub bit : Bool → ℕ
bit b = if b then 1 else 0

abbrev HasFd : Request → Type 0
HasFd accepts = Unit {0}
HasFd (reads fd) = fd < 2 ^ 32
HasFd (writes fd bid size) = fd < 2 ^ 32
HasFd (provides bid) = Unit {0}

Effect-serves :
    (l fd : ℕ) (c : Cqe ℕ) (k k' : Kernel) (r : Request)
    → HasFd r
    → Effect c k k' r
    → served fd (info_of l r) c.res c.flags + bit (k.opened fd) ≡ serves fd r + bit (k'.opened fd)
unfolding conn_info
Effect-serves l fd c k k' accepts h (accepted n e o s) = ground (arith, ap (λ t. t.opened fd) s)
Effect-serves l fd c k k' accepts h (accept_failed e s) = ground arith
Effect-serves l fd c k k' (reads n) h (received pl pr e p s) = ground arith
Effect-serves l fd c k k' (reads n) h (receive_failed e f z s) = ground arith
Effect-serves l fd c k k' (reads n) h (no_buffer e s) = ground arith
Effect-serves l fd c k k' (writes n bid _) h (sent s) = ground arith
Effect-serves l fd c k k' (provides bid) h (provided e s) = ground arith
Effect-serves l fd c k k' (provides bid) h (provide_failed e s) = ground arith

abbrev closes : ℕ → List Call → ℕ
closes fd [] = 0
closes fd (close n ∷ cs) = same n fd + closes fd cs
closes fd (shutdown n ∷ cs) = closes fd cs

-- What is answered on a connection is what the completion was on it, or its close.
answer-serves :
    (fd : ℕ) (info : ConnInfo) (res : ℤ) (flags : ℕ) (o : ℕ → Bool) {a : List Request × List Call}
    → answer info res flags ≡ some a
    → served fd info res flags ≤ bit (o fd)
    → total (serves fd) a.0 + bit (o fd) ≡ served fd info res flags + bit (close_all a.1 o fd)
unfolding answer
answer-serves fd info res flags o h k = ground arith

answer-HasFd :
    (c : Cqe ℕ) {a : List Request × List Call}
    → InRange c
    → answer (of_user_data c.user_data) c.res c.flags ≡ some a
    → All HasFd a.0
unfolding answer of_user_data
answer-HasFd c h e = ground arith

-- The descriptors and the completions are in the ranges of their C types.
pub record Fits (w : World) : Type 0 where
  pub sq_in : All HasFd w.sq
  pub flight_in : All HasFd w.flight
  pub cq_in : All InRange w.cq

-- How many accepts are queued, in flight or completed and not yet handled.
pub accepts_pending : World → ℕ
accepts_pending w = load is_accept is_accepted w

-- The requests on connection `fd`, with the completions on it that wait.
pub pending : ℕ → World → ℕ
pending fd w = load (serves fd) (served fd) w

module _ (got : ℕ → Bool) (l : ℕ) where
  Step-Fits : {w u : World} → Step got l w u → Fits w → Fits u
  Step-Fits {w} {u} (submits e) v = rw e (record {
    sq_in = tt;
    flight_in = All-append HasFd w.flight w.sq v.flight_in v.sq_in;
    cq_in = v.cq_in;
  })
  Step-Fits {w} {u} (completes xs ys r c k f d i x e) v = rw e (record {
    sq_in = v.sq_in;
    flight_in = (All-split HasFd xs ys (subst (All HasFd) f v.flight_in)).1;
    cq_in = All-append InRange w.cq (c ∷ []) v.cq_in (i, tt);
  })
  Step-Fits {w} {u} (handles c rest t sq q h s e) v =
      let (a, ans, s', _) = handles-answer got l w c t sq h s in
      let ranges = subst (All InRange) q v.cq_in in
      rw e (record {
        sq_in = rw s' (All-append HasFd w.sq a.0 v.sq_in (answer-HasFd c ranges.0 ans));
        flight_in = v.flight_in;
        cq_in = ranges.1;
      })

  Step-accepts : {w u : World} → Step got l w u → accepts_pending u ≡ accepts_pending w
  unfolding accepts_pending
  Step-accepts {w} {u} (submits e) = load-submits is_accept is_accepted w u e
  Step-accepts {w} {u} (completes xs ys r c k f d i x e) = omega (
    arith,
    load-completes is_accept is_accepted l w u xs ys r c k f d e,
    info-is_accept l r c.res c.flags,
  )
  Step-accepts {w} {u} (handles c rest t sq q h s e) =
      let (a, ans, s', _) = handles-answer got l w c t sq h s in
      omega (
        arith,
        load-handles is_accept is_accepted w u c rest _ sq a.0 q s' e,
        answer-accepts (of_user_data c.user_data) c.res c.flags ans,
      )

  -- In every state that is reached there is exactly one accept, queued, in flight or completed and
  -- about to be handled: the server never stops listening, and never listens twice.
  pub one_accept : (pool : List ℕ) (w : World) → Reach got l (start pool) w → accepts_pending w ≡ 1
  unfolding accepts_pending load
  one_accept pool w here = refl
  one_accept pool w (next {u} r st) = Step-accepts st ∙ one_accept pool u r

  Step-pending :
      (fd : ℕ) {w u : World}
      → Step got l w u
      → Fits w
      → pending fd w ≡ bit (w.opened fd)
      → pending fd u ≡ bit (u.opened fd)
  unfolding pending
  Step-pending fd {w} {u} (submits e) v p =
      omega (arith, load-submits (serves fd) (served fd) w u e, ap (λ t. bit (t.opened fd)) e)
  Step-pending fd {w} {u} (completes xs ys r c k f d i x e) v p = omega (
    arith,
    load-completes (serves fd) (served fd) l w u xs ys r c k f d e,
    Effect-serves l fd c w.kernel k r (All-split HasFd xs ys (subst (All HasFd) f v.flight_in)).0 x,
    ap (λ t. bit (t.opened fd)) e,
  )
  Step-pending fd {w} {u} (handles c rest t sq q h s e) v p =
      let (a, ans, s', calls) = handles-answer got l w c t sq h s in
      omega (
        arith,
        load-handles (serves fd) (served fd) w u c rest _ sq a.0 q s' e,
        answer-serves fd (of_user_data c.user_data) c.res c.flags w.opened ans
            (omega (arith, load-ge (serves fd) (served fd) w c rest q)),
        ap (λ t. bit (t.opened fd)) e,
        ap (λ cs. bit (close_all cs w.opened fd)) calls,
      )

  Reach-Fits : {w u : World} → Fits w → Reach got l w u → Fits u
  Reach-Fits v here = v
  Reach-Fits v (next r st) = Step-Fits st (Reach-Fits v r)

  -- In every state that is reached, an open connection has exactly one request or completion
  -- pending, and a descriptor that is not open has none: no connection is left unserved, none is
  -- served twice at once, and none is served after its close.
  pub one_pending :
      (fd : ℕ) (pool : List ℕ) (w : World)
      → Reach got l (start pool) w
      → pending fd w ≡ bit (w.opened fd)
  unfolding pending load
  one_pending fd pool w here = refl
  one_pending fd pool w (next {u} r st) =
      Step-pending fd st (Reach-Fits (record { sq_in = (tt, tt); flight_in = tt; cq_in = tt }) r)
        (one_pending fd pool u r)
