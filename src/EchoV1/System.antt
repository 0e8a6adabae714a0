-- ===== src/EchoV1/System.antt =====
-- The server and the kernel, step by step. A waiting completion stands beside the entry that it
-- completes, which the server does not see: it finds what the completion is for in `conns`.
use iowrapper.Base.{
  ℕ, ◌≡◌, ◌≢◌, Bool, true, false, List, [], ◌∷◌, ◌++◌, ℤ, pos, is_neg, done, ◌==◌, if◌then◌else◌,
}
use iowrapper.Uring.{Sqe, Cqe, Call, shutdown, close, Prep, accept, recv, send, Addr}
use iowrapper.EchoV1.{Server, handle}

pub record World : Type 0 where
  pub server : Server
  pub flight : List (Sqe ℕ)
  pub cq : List (Sqe ℕ × Cqe ℕ)
  pub opened : ℕ → Bool

abbrev pub mark : (ℕ → Bool) → ℕ → Bool → ℕ → Bool
mark o n b fd = if n == fd then b else o fd

abbrev pub close_all : List Call → (ℕ → Bool) → ℕ → Bool
close_all [] o = o
close_all (close n ∷ cs) o = close_all cs (mark o n false)
close_all (shutdown n ∷ cs) o = close_all cs o

-- A completion of a request and the open descriptors before and after it: an accept that succeeds
-- gives a descriptor that was not open; nothing else opens or closes one.
pub data Effect (prep : Prep) (res : ℤ) (o o' : ℕ → Bool) : Type 0 where
  accepted :
      (l n : ℕ)
      → prep ≡ accept l
      → res ≡ pos n
      → o n ≡ false
      → n ≢ l
      → o' ≡ mark o n true
      → Effect prep res o o'
  accept_failed : (l : ℕ) → prep ≡ accept l → is_neg res ≡ true → o' ≡ o → Effect prep res o o'
  received : (fd : ℕ) (a : Addr) (n : ℕ) → prep ≡ recv fd a n → o' ≡ o → Effect prep res o o'
  sent : (fd : ℕ) (a : Addr) (n : ℕ) → prep ≡ send fd a n → o' ≡ o → Effect prep res o o'

-- The server with its other calls forgotten, so that those of one completion can be read off.
abbrev pub quiet : Server → Server
quiet s = record s { calls = [] }

module _ (got : ℕ → Bool) (update : ℕ → ℤ) (listen_fd msg_len : ℕ) where
  pub data Step (w u : World) : Type 0 where
    submits :
        u ≡ record w { server = record w.server { sq = [] }; flight = w.flight ++ w.server.sq }
        → Step w u
    completes :
        (xs ys : List (Sqe ℕ)) (e : Sqe ℕ) (c : Cqe ℕ) (o : ℕ → Bool)
        → w.flight ≡ xs ++ (e ∷ ys)
        → c.user_data ≡ e.user_data
        → Effect e.prep c.res w.opened o
        → u ≡ record w { flight = xs ++ ys; cq = w.cq ++ ((e, c) ∷ []); opened = o }
        → Step w u
    handles :
        (e : Sqe ℕ) (c : Cqe ℕ) (rest : List (Sqe ℕ × Cqe ℕ)) (t : Server)
        → w.cq ≡ (e, c) ∷ rest
        → handle got update listen_fd msg_len (quiet w.server) c ≡ done t
        → u ≡ record w { server = t; cq = rest; opened = close_all t.calls w.opened }
        → Step w u

  pub data Reach (w : World) : World → Type 0 where
    here : Reach w w
    next : {u v : World} → Reach w u → Step u v → Reach w v
