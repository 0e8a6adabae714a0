-- ===== src/Startup/Tests.antt =====
-- An environment in which every call succeeds: `server -p 8080 -f -n 1`, with the listening socket 3.
use iowrapper.Base.{true, none, [], ◌∷◌, pos}
use iowrapper.Options.{port, connections, fixed}
use iowrapper.Startup.{Env}

abbrev pub good : Env
good = record {
  options = port (pos 8080) ∷ fixed ∷ connections (pos 1) ∷ [];
  argv1 = none;
  calloc_conns = λ n. true;
  calloc_bufs = true;
  malloc_buf = λ i. true;
  socket = 3;
  bind = pos 0;
  listen = pos 0;
  queue_init = pos 0;
  fast_poll = true;
  files = record {
    getrlimit = pos 0;
    rlim_max = 8;
    calloc_files = true;
    calloc_registered = true;
    register_files = pos 0;
  };
}
