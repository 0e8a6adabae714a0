-- ===== src/Coroutine/System.antt =====
-- The coroutine server and the kernel, step by step: the server submits what it queued and handles
-- completions one at a time; the kernel completes requests in any order, at any time. Nothing closes
-- a descriptor, so one that is open stays open.
use iowrapper.Base.{ℕ, ◌≡◌, Bool, true, false, none, List, [], ◌∷◌, ◌++◌, map, pos, is_neg, done}
use iowrapper.Uring.{Cqe, accept, no_flags}
use iowrapper.ConnInfo.{ConnInfo, conn_info, of_user_data, to_user_data}
use iowrapper.EchoV0.System.{mark, InRange}
use iowrapper.Coroutine.{Server, handle, accept_type}

-- A request that is in flight is known by its `user_data`.
pub record World : Type 0 where
  pub server : Server
  pub flight : List ℕ
  pub cq : List (Cqe ℕ)
  pub opened : ℕ → Bool

-- An accept that succeeds gives a descriptor that is not open.
pub data Effect (c : Cqe ℕ) (o o' : ℕ → Bool) : Type 0 where
  accepted :
      (n : ℕ)
      → (of_user_data c.user_data).type ≡ accept_type
      → c.res ≡ pos n
      → o n ≡ false
      → o' ≡ mark o n true
      → Effect c o o'
  other :
      ((of_user_data c.user_data).type ≡ accept_type → is_neg c.res ≡ true) → o' ≡ o → Effect c o o'

module _ (got : ℕ → Bool) (listen_fd : ℕ) (left : ConnInfo × ℕ) where
  pub data Step (w u : World) : Type 0 where
    submits :
        u ≡ record w {
          server = record w.server { sq = [] };
          flight = w.flight ++ map (λ e. e.user_data) w.server.sq;
        }
        → Step w u
    completes :
        (xs ys : List ℕ) (c : Cqe ℕ) (o : ℕ → Bool)
        → w.flight ≡ xs ++ (c.user_data ∷ ys)
        → InRange c
        → Effect c w.opened o
        → u ≡ record w { flight = xs ++ ys; cq = w.cq ++ (c ∷ []); opened = o }
        → Step w u
    handles :
        (c : Cqe ℕ) (rest : List (Cqe ℕ)) (t : Server)
        → w.cq ≡ c ∷ rest
        → handle got listen_fd left w.server c ≡ done t
        → u ≡ record w { server = t; cq = rest }
        → Step w u

  pub data Reach (w : World) : World → Type 0 where
    here : Reach w w
    next : {u v : World} → Reach w u → Step u v → Reach w v

-- When the loop begins: the first accept is queued, and there is no coroutine.
abbrev pub start : ℕ → World
start listen_fd = record {
  server = record {
    sq =
        record {
          prep = accept listen_fd;
          flags = no_flags;
          buf_group = none;
          user_data = to_user_data (conn_info listen_fd accept_type 0);
        }
        ∷ [];
    calls = [];
    connections = λ fd. none;
  };
  flight = [];
  cq = [];
  opened = λ fd. false;
}
