-- ===== src/EchoV1/Table.antt =====
-- `conns` says of every pending request what it is, although each request on a descriptor
-- overwrites the entry of the last one.
use iowrapper.Base.{
  ℕ, ◌+◌, ◌≡◌, ◌≢◌, ◌∙◌, Bool, false, some, List, [], ◌∷◌, get_elem?, get_elem?-set_ne, set, ℤ, pos,
  negsuc, same, total, All, if◌then◌else◌, arith,
}
use iowrapper.Uring.{Sqe, Cqe, Addr, Prep, accept, recv, send}
use iowrapper.EchoV1.{ConnInfo, accept_type, read_type, write_type}
use iowrapper.EchoV1.System.{World, Effect, accepted, accept_failed, received, sent}
use iowrapper.EchoV1.Answers.{info}

-- A request that is queued, in flight or completed: it points at the entry of its descriptor, which
-- says its type.
pub data IsPending (l : ℕ) (conns : List ConnInfo) (e : Sqe ℕ) : Type 0 where
  accepting :
      e.prep ≡ accept l
      → get_elem? conns e.user_data ≡ some (info l accept_type)
      → e.user_data ≡ l
      → IsPending l conns e
  reading :
      (fd : ℕ) (a : Addr) (n : ℕ)
      → e.prep ≡ recv fd a n
      → get_elem? conns e.user_data ≡ some (info fd read_type)
      → e.user_data ≡ fd
      → fd ≢ l
      → IsPending l conns e
  writing :
      (fd : ℕ) (a : Addr) (n : ℕ)
      → e.prep ≡ send fd a n
      → get_elem? conns e.user_data ≡ some (info fd write_type)
      → e.user_data ≡ fd
      → fd ≢ l
      → IsPending l conns e

-- How many pending requests point at entry i; a connection that was accepted and is not handled
-- yet counts for the entry that it will take.
abbrev pub at : ℕ → Sqe ℕ → ℕ
at i e = same e.user_data i

abbrev pub arrives : ℕ → Prep → ℤ → ℕ
arrives i (accept l) (pos n) = same n i
arrives i (accept l) (negsuc n) = 0
arrives i p res = 0

abbrev pub at_done : ℕ → Sqe ℕ × Cqe ℕ → ℕ
at_done i (e, c) = same e.user_data i + arrives i e.prep c.res

unfoldable pub load : ℕ → World → ℕ
load i w = total (at i) w.flight + total (at i) w.server.sq + total (at_done i) w.cq

abbrev pub bit : Bool → ℕ
bit b = if b then 1 else 0

-- Another entry is written.
IsPending-set :
    {l : ℕ} {conns : List ConnInfo} (e : Sqe ℕ) (i : ℕ) (v : ConnInfo)
    → same e.user_data i ≡ 0
    → IsPending l conns e
    → IsPending l (set conns i v) e
IsPending-set {l} {conns} e i v z (accepting p g u) =
    accepting p (get_elem?-set_ne conns i e.user_data v (ground arith) ∙ g) u
IsPending-set {l} {conns} e i v z (reading fd a n p g u k) =
    reading fd a n p (get_elem?-set_ne conns i e.user_data v (ground arith) ∙ g) u k
IsPending-set {l} {conns} e i v z (writing fd a n p g u k) =
    writing fd a n p (get_elem?-set_ne conns i e.user_data v (ground arith) ∙ g) u k

All-IsPending-set :
    (l : ℕ) (conns : List ConnInfo) (es : List (Sqe ℕ)) (i : ℕ) (v : ConnInfo)
    → total (at i) es ≡ 0
    → All (IsPending l conns) es
    → All (IsPending l (set conns i v)) es
All-IsPending-set l conns [] i v z h = tt
All-IsPending-set l conns (e ∷ es) i v z h =
    (IsPending-set e i v (omega arith) h.0, All-IsPending-set l conns es i v (omega arith) h.1)

-- A completion that waits points where its request did.
abbrev pub IsDone : ℕ → List ConnInfo → Sqe ℕ × Cqe ℕ → Type 0
IsDone l conns (e, c) = IsPending l conns e × (c.user_data ≡ e.user_data)

All-IsDone-set :
    (l : ℕ) (conns : List ConnInfo) (es : List (Sqe ℕ × Cqe ℕ)) (i : ℕ) (v : ConnInfo)
    → total (at_done i) es ≡ 0
    → All (IsDone l conns) es
    → All (IsDone l (set conns i v)) es
All-IsDone-set l conns [] i v z h = tt
All-IsDone-set l conns ((e, c) ∷ es) i v z h = (
  (IsPending-set e i v (omega arith) h.0.0, h.0.1),
  All-IsDone-set l conns es i v (omega arith) h.1,
)

-- The invariant of the system.
pub record IsConsistent (l : ℕ) (w : World) : Type 0 where
  pub queued : All (IsPending l w.server.conns) w.server.sq
  pub flying : All (IsPending l w.server.conns) w.flight
  pub waiting : All (IsDone l w.server.conns) w.cq
  pub counts : (i : ℕ) → load i w ≡ bit (w.opened i) + same l i
  pub listening : w.opened l ≡ false

pub IsPending-listen :
    {l : ℕ} {conns : List ConnInfo} {e : Sqe ℕ} (m : ℕ)
    → IsPending l conns e
    → e.prep ≡ accept m
    → m ≡ l
IsPending-listen m (accepting p g u) q = ground arith
IsPending-listen m (reading fd a n p g u k) q = ground arith
IsPending-listen m (writing fd a n p g u k) q = ground arith

pub Effect-arrives :
    {prep : Prep} {res : ℤ} {o o' : ℕ → Bool} (i : ℕ)
    → Effect prep res o o'
    → arrives i prep res + bit (o i) ≡ bit (o' i)
Effect-arrives {prep} {res} {o} {o'} i (accepted l n p r z k s) = rw (p, r, s) (ground arith)
Effect-arrives {prep} {res = pos r} {o} {o'} i (accept_failed l p z s) = cc
Effect-arrives {prep} {res = negsuc r} {o} {o'} i (accept_failed l p z s) = rw (p, s) (ground arith)
Effect-arrives {prep} {res} {o} {o'} i (received fd a n p s) = rw (p, s) (ground arith)
Effect-arrives {prep} {res} {o} {o'} i (sent fd a n p s) = rw (p, s) (ground arith)

pub Effect-listening :
    {l : ℕ} {prep : Prep} {res : ℤ} {o o' : ℕ → Bool}
    → ((m : ℕ) → prep ≡ accept m → m ≡ l)
    → Effect prep res o o'
    → o l ≡ false
    → o' l ≡ false
Effect-listening {l} h (accepted m n p r z k s) c = rw s (ground (arith, h m p))
Effect-listening {l} h (accept_failed m p z s) c = rw s c
Effect-listening {l} h (received fd a n p s) c = rw s c
Effect-listening {l} h (sent fd a n p s) c = rw s c

-- What is pending beside the completion at hand.
pub record Others (l : ℕ) (conns : List ConnInfo) (fl sq : List (Sqe ℕ))
    (rest : List (Sqe ℕ × Cqe ℕ)) : Type 0 where
  pub flying : All (IsPending l conns) fl
  pub queued : All (IsPending l conns) sq
  pub waiting : All (IsDone l conns) rest

-- It keeps agreeing with the table when an entry that none of it points at is written.
pub Others-set :
    (l : ℕ) (conns : List ConnInfo) (fl sq : List (Sqe ℕ)) (rest : List (Sqe ℕ × Cqe ℕ)) (i : ℕ)
    (v : ConnInfo)
    → total (at i) fl + total (at i) sq + total (at_done i) rest ≡ 0
    → Others l conns fl sq rest
    → Others l (set conns i v) fl sq rest
Others-set l conns fl sq rest i v z o = record {
  flying = All-IsPending-set l conns fl i v (omega arith) o.flying;
  queued = All-IsPending-set l conns sq i v (omega arith) o.queued;
  waiting = All-IsDone-set l conns rest i v (omega arith) o.waiting;
}
