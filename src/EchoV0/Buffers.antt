-- ===== src/EchoV0/Buffers.antt =====
-- Where every provided buffer is, at every moment.
use iowrapper.Base.{
  ℕ, zero, suc, ltb, lt→ltb, ◌+◌, ◌<◌, ◌^◌, ◌≡◌, refl, ◌∙◌, ap, subst, Bool, some, List, [], ◌∷◌, ℤ,
  arith, total, total-append, same, is_minus, ◌==◌, if◌then◌else◌, All, All-append, All-split,
}
use iowrapper.Uring.{Cqe, Call, bid_of_flags, enobufs}
use iowrapper.ConnInfo.{ConnInfo, conn_info, of_user_data}
use iowrapper.EchoV0.{read_type, write_type, buffers_count}
use iowrapper.EchoV0.Requests.{Request, accepts, reads, writes, provides, info_of, answer}
use iowrapper.EchoV0.System.{
  World, Kernel, Effect, accepted, accept_failed, received, receive_failed, no_buffer, sent,
  provided, provide_failed, InRange, Step, submits, completes, handles, Reach, here, next, start,
}
use iowrapper.EchoV0.Balance.{handles-answer, load, load-submits, load-completes, load-handles}

-- The requests that hold buffer b: a send from it, and its provision to the group.
abbrev pub holds : ℕ → Request → ℕ
holds b accepts = 0
holds b (reads fd) = 0
holds b (writes fd bid size) = same bid b
holds b (provides bid) = same bid b

-- The completions that hold it: a receive that names it, as one that failed without a buffer names
-- buffer 0, and a send from it.
abbrev pub holds_after : ℕ → ConnInfo → ℤ → ℕ → ℕ
holds_after b info res flags =
    if info.type == read_type
    then if is_minus res enobufs then 0 else same (bid_of_flags flags) b
    else if info.type == write_type
    then same info.bid b
    else 0

-- How many hold buffer b: the group, what was lost, requests and completions.
pub holders : ℕ → World → ℕ
holders b w = total (same b) w.pool + total (same b) w.lost + load (holds b) (holds_after b) w

-- The holders too many of buffer b, where `failed` receives named buffer 0 without taking it.
abbrev pub phantoms : ℕ → ℕ → ℕ
phantoms b failed = if b == 0 then failed else 0

abbrev HasBid : Request → Type 0
HasBid accepts = Unit {0}
HasBid (reads fd) = Unit {0}
HasBid (writes fd bid size) = bid < 2 ^ 16
HasBid (provides bid) = bid < 2 ^ 16

Effect-holders :
    (l b : ℕ) (c : Cqe ℕ) (k k' : Kernel) (r : Request)
    → HasBid r
    → Effect c k k' r
    → total (same b) k'.pool
        + total (same b) k'.lost
        + holds_after b (info_of l r) c.res c.flags
        + phantoms b k.failed
      ≡ total (same b) k.pool + total (same b) k.lost + holds b r + phantoms b k'.failed
unfolding conn_info
Effect-holders l b c k k' accepts h (accepted n e o s) = ground arith
Effect-holders l b c k k' accepts h (accept_failed e s) = ground arith
Effect-holders l b c k k' (reads fd) h (received pl pr e p s) = ground (
  arith,
  total-append (same b) pl pr,
  total-append (same b) pl (bid_of_flags c.flags ∷ pr),
  ap (total (same b)) p,
)
Effect-holders l b c k k' (reads fd) h (receive_failed e f z s) =
    ground (arith, ap (λ t. t.failed) s)
Effect-holders l b c k k' (reads fd) h (no_buffer e s) = ground arith
Effect-holders l b c k k' (writes fd bid n) h (sent s) = ground arith
Effect-holders l b c k k' (provides bid) h (provided e s) = ground arith
Effect-holders l b c k k' (provides bid) h (provide_failed e s) = ground arith

answer-holds :
    (b : ℕ) (info : ConnInfo) (res : ℤ) (flags : ℕ) {a : List Request × List Call}
    → answer info res flags ≡ some a
    → total (holds b) a.0 ≡ holds_after b info res flags
unfolding answer
answer-holds b info res flags h = ground arith

answer-HasBid :
    (c : Cqe ℕ) {a : List Request × List Call}
    → InRange c
    → answer (of_user_data c.user_data) c.res c.flags ≡ some a
    → All HasBid a.0
unfolding answer of_user_data
answer-HasBid c h e = ground arith

-- The identifiers and the completions are in the ranges of their C types.
pub record Fits (w : World) : Type 0 where
  pub sq_in : All HasBid w.sq
  pub flight_in : All HasBid w.flight
  pub cq_in : All InRange w.cq

module _ (got : ℕ → Bool) (l : ℕ) where
  Step-Fits : {w u : World} → Step got l w u → Fits w → Fits u
  Step-Fits {w} {u} (submits e) v = rw e (record {
    sq_in = tt;
    flight_in = All-append HasBid w.flight w.sq v.flight_in v.sq_in;
    cq_in = v.cq_in;
  })
  Step-Fits {w} {u} (completes xs ys r c k f d i x e) v = rw e (record {
    sq_in = v.sq_in;
    flight_in = (All-split HasBid xs ys (subst (All HasBid) f v.flight_in)).1;
    cq_in = All-append InRange w.cq (c ∷ []) v.cq_in (i, tt);
  })
  Step-Fits {w} {u} (handles c rest t sq q h s e) v =
      let (a, ans, s', _) = handles-answer got l w c t sq h s in
      let ranges = subst (All InRange) q v.cq_in in
      rw e (record {
        sq_in = rw s' (All-append HasBid w.sq a.0 v.sq_in (answer-HasBid c ranges.0 ans));
        flight_in = v.flight_in;
        cq_in = ranges.1;
      })

  -- Only a receive that fails changes how many hold a buffer.
  Step-holders :
      (b : ℕ) {w u : World}
      → Step got l w u
      → Fits w
      → holders b u + phantoms b w.failed ≡ holders b w + phantoms b u.failed
  unfolding holders
  Step-holders b {w} {u} (submits e) v = omega (
    arith,
    load-submits (holds b) (holds_after b) w u e,
    ap (λ t. total (same b) t.pool) e,
    ap (λ t. total (same b) t.lost) e,
    ap (λ t. phantoms b t.failed) e,
  )
  Step-holders b {w} {u} (completes xs ys r c k f d i x e) v = omega (
    arith,
    load-completes (holds b) (holds_after b) l w u xs ys r c k f d e,
    Effect-holders l b c w.kernel k r (All-split HasBid xs ys (subst (All HasBid) f v.flight_in)).0
        x,
    ap (λ t. total (same b) t.pool) e,
    ap (λ t. total (same b) t.lost) e,
    ap (λ t. phantoms b t.failed) e,
  )
  Step-holders b {w} {u} (handles c rest t sq q h s e) v =
      let (a, ans, s', _) = handles-answer got l w c t sq h s in
      omega (
        arith,
        load-handles (holds b) (holds_after b) w u c rest _ sq a.0 q s' e,
        answer-holds b (of_user_data c.user_data) c.res c.flags ans,
        ap (λ t. total (same b) t.pool) e,
        ap (λ t. total (same b) t.lost) e,
        ap (λ t. phantoms b t.failed) e,
      )

  Reach-Fits : {w u : World} → Fits w → Reach got l w u → Fits u
  Reach-Fits v here = v
  Reach-Fits v (next r st) = Step-Fits st (Reach-Fits v r)

  Reach-holders :
      (b : ℕ) {w u : World}
      → Fits w
      → Reach got l w u
      → holders b u + phantoms b w.failed ≡ holders b w + phantoms b u.failed
  Reach-holders b v here = refl
  Reach-holders b v (next r st) =
      omega (arith, Step-holders b st (Reach-Fits v r), Reach-holders b v r)

  -- From the start of the event loop on, whatever the kernel completes and in whatever order, each
  -- buffer b is held as often as the group held it at the start, by the group, a request in the queue
  -- or in flight, a completion that waits, or a provision that failed; and buffer 0 once more for
  -- each receive that failed without a buffer.
  start-holders :
      (b : ℕ) (pool : List ℕ) (w : World)
      → Reach got l (start pool) w
      → holders b w ≡ total (same b) pool + phantoms b w.failed
  unfolding holders load
  start-holders b pool w r =
      let h = Reach-holders b (record { sq_in = (tt, tt); flight_in = tt; cq_in = tt }) r in
      grind (arith, h)

-- The identifiers that IORING_OP_PROVIDE_BUFFERS gives `n` buffers from 0 on.
pub bids : ℕ → List ℕ
bids zero = []
bids (suc n) = n ∷ bids n

total-bids : (b n : ℕ) → total (same b) (bids n) ≡ (if ltb b n then 1 else 0)
unfolding bids
total-bids b zero = ground arith
total-bids b (suc n) = ground (arith, total-bids b n)

-- Once `main` has provided its buffers, each of them but buffer 0 has exactly one holder in every
-- state that the server and the kernel reach: it is never used by two requests, handed out while it
-- is in use, given back twice or forgotten. (A provision that failed counts as a holder.) Buffer 0 has
-- one holder, and one more for each receive that failed, with another error than ENOBUFS, without taking
-- a buffer: the server provides buffer 0 for each of them.
pub one_holder :
    (got : ℕ → Bool) (l b : ℕ) (w : World)
    → b < buffers_count
    → Reach got l (start (bids buffers_count)) w
    → holders b w ≡ 1 + (if b == 0 then w.failed else 0)
one_holder got l b w h r =
    start-holders got l b (bids buffers_count) w r
    ∙ ap (λ n. n + phantoms b w.failed) (total-bids b buffers_count ∙ rw (lt→ltb b buffers_count h))
