-- ===== src/EchoV0/System.antt =====
-- The server and the kernel, step by step: the server submits what it queued and handles
-- completions one at a time; the kernel completes requests in any order, at any time. The kernel
-- is not in the repository: `Effect` states what io_uring documents of each completion.
use iowrapper.Base.{
  ℕ, ◌+◌, ◌<◌, ◌^◌, ◌≡◌, Bool, true, false, List, [], ◌∷◌, ◌++◌, map, pos, is_neg, is_minus, to_nat,
  done, ◌==◌, if◌then◌else◌,
}
use iowrapper.Uring.{Cqe, Call, shutdown, close, bid_of_flags, enobufs}
use iowrapper.ConnInfo.{to_user_data}
use iowrapper.EchoV0.{Server, handle}
use iowrapper.EchoV0.Requests.{Request, accepts, reads, writes, provides, entry, info_of}

-- The buffers of the group that the kernel may choose from, those that a failed request lost, how
-- many receives failed, with another error than ENOBUFS, without a buffer, and the open connections.
pub record Kernel : Type 0 where
  pub pool : List ℕ
  pub lost : List ℕ
  pub failed : ℕ
  pub opened : ℕ → Bool

pub record World : Type 0 where
  pub kernel : Kernel
  pub open kernel use *
  pub sq : List Request
  pub flight : List Request
  pub cq : List (Cqe ℕ)

abbrev pub mark : (ℕ → Bool) → ℕ → Bool → ℕ → Bool
mark o n b fd = if n == fd then b else o fd

-- A `close` frees the descriptor.
abbrev pub close_all : List Call → (ℕ → Bool) → ℕ → Bool
close_all [] o = o
close_all (close n ∷ cs) o = close_all cs (mark o n false)
close_all (shutdown n ∷ cs) o = close_all cs o

-- A completion of a request, and what it does to the kernel's side:
-- accept gives a descriptor that is not open; a receive that succeeds takes a buffer out of the group
-- and names it in its flags; one that fails does so too or takes none, and then the upper half of its
-- flags is zero, and one that fails with ENOBUFS takes none; buffers that are provided go into the
-- group.
pub data Effect (c : Cqe ℕ) (k k' : Kernel) : Request → Type 0 where
  accepted :
      (n : ℕ)
      → c.res ≡ pos n
      → k.opened n ≡ false
      → k' ≡ record k { opened = mark k.opened n true }
      → Effect c k k' accepts
  accept_failed : is_neg c.res ≡ true → k' ≡ k → Effect c k k' accepts
  received :
      {fd : ℕ} (pl pr : List ℕ)
      → is_minus c.res enobufs ≡ false
      → k.pool ≡ pl ++ (bid_of_flags c.flags ∷ pr)
      → k' ≡ record k { pool = pl ++ pr }
      → Effect c k k' (reads fd)
  receive_failed :
      {fd : ℕ}
      → is_neg c.res ≡ true
      → is_minus c.res enobufs ≡ false
      → bid_of_flags c.flags ≡ 0
      → k' ≡ record k { failed = k.failed + 1 }
      → Effect c k k' (reads fd)
  no_buffer : {fd : ℕ} → is_minus c.res enobufs ≡ true → k' ≡ k → Effect c k k' (reads fd)
  sent : {fd bid size : ℕ} → k' ≡ k → Effect c k k' (writes fd bid size)
  provided :
      {bid : ℕ}
      → is_neg c.res ≡ false
      → k' ≡ record k { pool = bid ∷ k.pool }
      → Effect c k k' (provides bid)
  provide_failed :
      {bid : ℕ}
      → is_neg c.res ≡ true
      → k' ≡ record k { lost = bid ∷ k.lost }
      → Effect c k k' (provides bid)

-- The C types of the fields of a completion.
abbrev pub InRange : Cqe ℕ → Type 0
InRange c = (c.flags < 2 ^ 32) × (to_nat c.res < 2 ^ 31)

pub data Step (got : ℕ → Bool) (listen_fd : ℕ) (w u : World) : Type 0 where
  submits : u ≡ record w { sq = []; flight = w.flight ++ w.sq } → Step got listen_fd w u
  completes :
      (xs ys : List Request) (r : Request) (c : Cqe ℕ) (k : Kernel)
      → w.flight ≡ xs ++ (r ∷ ys)
      → c.user_data ≡ to_user_data (info_of listen_fd r)
      → InRange c
      → Effect c w.kernel k r
      → u ≡ record w { kernel = k; flight = xs ++ ys; cq = w.cq ++ (c ∷ []) }
      → Step got listen_fd w u
  handles :
      (c : Cqe ℕ) (rest : List (Cqe ℕ)) (t : Server) (sq : List Request)
      → w.cq ≡ c ∷ rest
      → handle got listen_fd (record { sq = map (entry listen_fd) w.sq; calls = [] }) c ≡ done t
      → t.sq ≡ map (entry listen_fd) sq
      → u ≡ record w {
        kernel = record w.kernel { opened = close_all t.calls w.opened };
        sq = sq;
        cq = rest;
      }
      → Step got listen_fd w u

pub data Reach (got : ℕ → Bool) (listen_fd : ℕ) (w : World) : World → Type 0 where
  here : Reach got listen_fd w w
  next : {u v : World} → Reach got listen_fd w u → Step got listen_fd u v → Reach got listen_fd w v

-- When the event loop begins: the first accept is queued, every buffer of `pool` is provided and
-- no connection is open.
abbrev pub start : List ℕ → World
start pool = record {
  kernel = record { pool = pool; lost = []; failed = 0; opened = λ fd. false };
  sq = accepts ∷ [];
  flight = [];
  cq = [];
}
