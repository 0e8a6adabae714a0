-- ===== src/Demos.antt =====
-- The demo servers of demo/. What those on io_uring share before their loops: the ring, its features
-- and the listening socket.
pub mod GroupRecv
pub mod GroupMsg
pub mod OneBuffer
pub mod Watch
pub mod WatchRing
pub mod Blocking
pub mod Weights
use iowrapper.Base.{
  ℕ, Bool, not, ◌&&◌, List, ℤ, is_neg, is_minus, to_nat, Outcome, done, exit, ◌>>=◌, ◌>>◌, exit_if,
  ltb,
}
use iowrapper.Uring.{Call, no_flags}
use iowrapper.IoOp.{Queue, create_server_socket, provide_all, add_accept}

-- What the operating system and liburing return. `left` is the `user_data` of an entry that nobody
-- sets.
pub record Env : Type 0 where
  pub argc : ℕ
  pub queue_init : ℤ
  pub fast_poll : Bool
  pub probe : Bool
  pub can_provide : Bool
  pub left : ℕ
  pub provided : ℤ
  pub socket : ℤ
  pub bind : ℤ
  pub listen : ℤ

-- The submission queue, the other calls and how many completions were marked as seen.
pub record Server : Type 0 where
  pub sq : Queue
  pub calls : List Call
  pub seen : ℕ

-- Up to the probe.
unfoldable pub open_ring : Env → Outcome (Unit {0})
open_ring env = do
  exit_if (ltb env.argc 2) 1
  exit_if (is_neg env.queue_init) 1
  exit_if (not env.fast_poll) 0
  exit_if (not (env.probe && env.can_provide)) 0

-- The listening socket.
unfoldable pub listen_on : Env → Outcome ℕ
listen_on env =
    let sockfd = (create_server_socket env.socket env.bind env.listen).0 in
    exit_if (is_minus sockfd 1) 1 >> done (to_nat sockfd)
