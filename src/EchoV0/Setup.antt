-- ===== src/EchoV0/Setup.antt =====
-- The part of `main` before the event loop.
use iowrapper.Base.{
  ℕ, ◌≡◌, Bool, true, false, not, ◌&&◌, [], map, ℤ, is_neg, is_zero, ◌⊎◌, Outcome, done, exit,
  ◌>>=◌, ◌>>◌, exit_if, ltb, leb, arith, if◌then◌else◌,
}
use iowrapper.Uring.{Prep, provide_buffers, row, no_flags, enqueue}
use iowrapper.EchoV0.{Server, add_accept, max_message_len, buffers_count, group_id}
use iowrapper.EchoV0.Requests.{entry}
use iowrapper.EchoV0.System.{start}
use iowrapper.EchoV0.Buffers.{bids}

-- What the operating system and liburing return. `strcmp_sqp` is `strcmp(argv[2], "sqp")`; a
-- `socket` that fails shows in `bind`, which then fails too.
pub record Env : Type 0 where
  pub argc : ℕ
  pub strcmp_sqp : ℤ
  pub socket : ℕ
  pub bind : ℤ
  pub listen : ℤ
  pub queue_init : ℤ
  pub fast_poll : Bool
  pub probe : Bool
  pub can_provide : Bool
  pub provided : ℤ

-- `params` before `io_uring_queue_init_params`.
pub record Params : Type 0 where
  pub sqpoll : Bool
  pub sq_thread_cpu : ℕ
  pub sq_thread_idle : ℕ

pub params_of : Env → Params
params_of env =
    if leb 3 env.argc && is_zero env.strcmp_sqp
    then record { sqpoll = true; sq_thread_cpu = 4; sq_thread_idle = 10000 }
    else record { sqpoll = false; sq_thread_cpu = 0; sq_thread_idle = 0 }

pub record Started : Type 0 where
  pub listen_fd : ℕ
  pub params : Params
  -- The request that registered the buffers, completed before the loop begins.
  pub registered : Prep
  pub server : Server

unfoldable pub setup : (ℕ → Bool) → Env → Outcome Started
unfolding params_of
setup got env = do
  exit_if (ltb env.argc 2) 0
  exit_if (is_neg env.bind) 1
  exit_if (is_neg env.listen) 1
  exit_if (is_neg env.queue_init) 1
  exit_if (not env.fast_poll) 0
  exit_if (not (env.probe && env.can_provide)) 0
  exit_if (is_neg env.provided) 1
  server ← add_accept got (record { sq = []; calls = [] }) env.socket no_flags
  done (record {
    listen_fd = env.socket;
    params = params_of env;
    registered = provide_buffers (row 0) max_message_len buffers_count group_id 0;
    server = server;
  })

-- Every check of `main` before the loop.
abbrev pub checks : Env → Bool
checks env =
    leb 2 env.argc
    && (not (is_neg env.bind)
        && (not (is_neg env.listen)
            && (not (is_neg env.queue_init)
                && (env.fast_poll
                    && ((env.probe && env.can_provide) && not (is_neg env.provided))))))

-- The event loop begins exactly if every check passes, with the one accept queued with which the
-- system of `System` starts; otherwise the process ends, with status 0 or 1.
pub setup_lem :
    (got : ℕ → Bool) (env : Env)
    → got 0 ≡ true
    → (checks env ≡ true
        → setup got env
          ≡ done (record {
            listen_fd = env.socket;
            params = params_of env;
            registered = provide_buffers (row 0) max_message_len buffers_count group_id 0;
            server = record {
              sq = map (entry env.socket) (start (bids buffers_count)).sq;
              calls = [];
            };
          }))
      × (checks env ≡ false → (setup got env ≡ exit 0) ⊎ (setup got env ≡ exit 1))
unfolding setup add_accept enqueue
setup_lem got env h = (ground arith, ground arith)
