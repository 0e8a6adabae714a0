-- ===== src/EchoV2/Setup.antt =====
-- `main` of version 2 up to the event loop.
use iowrapper.Base.{
  ℕ, Bool, true, false, not, [], List, replicate, ℤ, to_nat, is_zero, Outcome, done, exit_if, ◌>>=◌,
  ◌>>◌,
}
use iowrapper.Options.{Config, configure}
use iowrapper.Registry.{init_registerfiles}
use iowrapper.Startup.{Env, alloc_bufs, open_ring, register_listener}
use iowrapper.EchoV2.{Server, fill_ring, nr_bufs, int_product, add_accept}

-- What the three calls for the ring of buffers return.
pub record RingEnv : Type 0 where
  pub memalign_ring : ℤ
  pub register_ring : ℤ
  pub memalign_pool : ℤ

-- The server as the first accept is added.
abbrev pub initial : Config → List ℤ → Server
initial c table = record {
  sq = [];
  calls = [];
  conns =
      replicate (to_nat c.max_connections) (record { fd = 0; type = 0; multishot_recv = false });
  registerfiles = c.registerfiles;
  registered_files = table;
  ring = fill_ring (to_nat c.msg_len) nr_bufs 0;
  buf_added = 0;
}

unfoldable pub setup : (ℕ → Bool) → (ℕ → ℤ) → Env → RingEnv → Outcome (Config × Server)
setup got update env rings = do
  c ← configure true env.options env.argv1
  exit_if (not (env.calloc_conns c.max_connections)) 1
  alloc_bufs env (to_nat c.max_connections) 0
  open_ring env
  exit_if (not (is_zero rings.memalign_ring)) 1
  exit_if (not (is_zero rings.register_ring)) 1
  pool_size ← int_product c.msg_len nr_bufs
  exit_if (not (is_zero rings.memalign_pool)) 1
  table ← register_listener update c.registerfiles (init_registerfiles env.files) env.socket
  server ← add_accept got update (initial c table) env.socket
  done (c, server)
