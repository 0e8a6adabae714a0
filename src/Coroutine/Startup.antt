-- ===== src/Coroutine/Startup.antt =====
-- `main` of the coroutine server before the loop: the checks of io_uring_echo_server.c, less the
-- choice of the polling mode, which this server does not offer.
use iowrapper.Base.{
  ℕ, ◌≡◌, Bool, List, ◌&&◌, not, none, [], is_neg, Outcome, done, ◌>>=◌, ◌>>◌, exit_if, ltb, arith,
}
use iowrapper.Uring.{Sqe, Prep, provide_buffers, row, no_flags, enqueue}
use iowrapper.EchoV0
use iowrapper.EchoV0.Setup.{Env}
use iowrapper.EchoV0.Setup
use iowrapper.Coroutine.{Server, add_accept, max_message_len, group_id}

abbrev pub buffers_count : ℕ
buffers_count = 4096

-- What `main` has done when the loop begins.
pub record Started : Type 0 where
  pub listen_fd : ℕ
  -- The request that registered the buffers, completed before the loop begins.
  pub registered : Prep
  pub server : Server

unfoldable pub setup : (ℕ → Bool) → Env → Outcome Started
setup got env = do
  exit_if (ltb env.argc 2) 0
  exit_if (is_neg env.bind) 1
  exit_if (is_neg env.listen) 1
  exit_if (is_neg env.queue_init) 1
  exit_if (not env.fast_poll) 0
  exit_if (not (env.probe && env.can_provide)) 0
  exit_if (is_neg env.provided) 1
  server ←
      add_accept got (record { sq = []; calls = []; connections = λ fd. none }) env.socket no_flags
  done (record {
    listen_fd = env.socket;
    registered = provide_buffers (row 0) max_message_len buffers_count group_id 0;
    server = server;
  })

-- The listening socket, the registration of the buffers and what is queued for the first submission.
abbrev pub begins : Started → ℕ × Prep × List (Sqe ℕ)
begins p = (p.listen_fd, p.registered, p.server.sq)

abbrev pub begins_v0 : EchoV0.Setup.Started → ℕ × Prep × List (Sqe ℕ)
begins_v0 p = (p.listen_fd, p.registered, p.server.sq)

-- Whatever the calls return, the coroutine server ends before its loop with the same status as
-- io_uring_echo_server.c, or begins its loop with the same buffers registered and the same accept
-- queued.
pub setup-begins :
    (got : ℕ → Bool) (env : Env)
    → (setup got env >>= λ p. done (begins p))
      ≡ (EchoV0.Setup.setup got env >>= λ p. done (begins_v0 p))
unfolding setup add_accept EchoV0.Setup.setup EchoV0.add_accept enqueue
setup-begins got env = ground arith
