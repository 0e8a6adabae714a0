-- ===== src/EchoV3/Setup.antt =====
-- `main` of version 3 up to the event loop.
use iowrapper.Base.{
  ℕ, ◌≡◌, refl, sym, subst, ◌∙◌, Bool, true, false, not, some, [], List, length, length-replicate,
  length-set, replicate, get_elem?, ℤ, pos, to_nat, is_zero, Outcome, done, exit_if, ◌>>=◌, ◌>>◌,
  >>=-eq-done, arith, ap,
}
use iowrapper.Uring.{enqueue}
use iowrapper.Options.{Config, configure}
use iowrapper.Options.Laws.{configure_passes}
use iowrapper.Registry.Laws.{IsTable, init_tables-IsTable}
use iowrapper.Startup.{Env, alloc_bufs, open_ring, register_listener}
use iowrapper.Startup.Laws.{register_listener_lem}
use iowrapper.EchoV3.{Server, add_accept, accept_type, init_registerfiles}

-- The three tables are allocated one after the other; `calloc_write` and `calloc_poll` say of the
-- second and the third what `calloc_conns` says of the first.
pub record TablesEnv : Type 0 where
  pub calloc_write : ℤ → Bool
  pub calloc_poll : ℤ → Bool

-- The server as the first accept is added.
abbrev pub initial : Config → List ℤ → Server
initial c table =
    let conns = replicate (to_nat c.max_connections) (record { fd = 0; type = 0 }) in
    record {
      sq = [];
      calls = [];
      conns_read = conns;
      conns_write = conns;
      conns_poll = conns;
      registerfiles = c.registerfiles;
      registered_files = table;
      seen = 0;
      clients = 0;
    }

unfoldable pub setup : (ℕ → Bool) → (ℕ → ℤ) → Env → TablesEnv → Outcome (Config × Server)
setup got update env tables = do
  c ← configure false env.options env.argv1
  exit_if (not (env.calloc_conns c.max_connections)) 1
  exit_if (not (tables.calloc_write c.max_connections)) 1
  exit_if (not (tables.calloc_poll c.max_connections)) 1
  alloc_bufs env (to_nat c.max_connections) 0
  open_ring env
  table ←
      register_listener update c.registerfiles
        (init_registerfiles env.files (to_nat c.max_connections)) env.socket
  server ← add_accept got update (initial c table) env.socket
  done (c, server)

module _ (got : ℕ → Bool) (update : ℕ → ℤ) (env : Env) (tables : TablesEnv) where
  abbrev made : Config → ℤ × List ℤ
  made c = init_registerfiles env.files (to_nat c.max_connections)

  setup-done :
      (c : Config) (s : Server)
      → setup got update env tables ≡ done (c, s)
      → (table : List ℤ) × (configure false env.options env.argv1 ≡ done c)
        × (register_listener update c.registerfiles (made c) env.socket ≡ done table)
        × (add_accept got update (initial c table) env.socket ≡ done s)
  unfolding setup
  setup-done c s h =
      let (c', e1, h1) = >>=-eq-done (configure false env.options env.argv1) _ h in
      let (_, _, h2) = >>=-eq-done (exit_if (not (env.calloc_conns c'.max_connections)) 1) _ h1 in
      let (_, _, h3) =
        >>=-eq-done (exit_if (not (tables.calloc_write c'.max_connections)) 1) _ h2 in
      let (_, _, h4) = >>=-eq-done (exit_if (not (tables.calloc_poll c'.max_connections)) 1) _ h3 in
      let (_, _, h5) = >>=-eq-done (alloc_bufs env (to_nat c'.max_connections) 0) _ h4 in
      let (_, _, h6) = >>=-eq-done (open_ring env) _ h5 in
      let (table, e7, h7) =
        >>=-eq-done (register_listener update c'.registerfiles (made c') env.socket) _ h6 in
      let (s', e8, h8) = >>=-eq-done (add_accept got update (initial c' table) env.socket) _ h7 in
      let p : c' ≡ c = cc h8 in
      let q : s' ≡ s = cc h8 in
      (
        table,
        e1 ∙ ap done p,
        subst
            (λ (x : Config).
              register_listener update x.registerfiles (made x) env.socket ≡ done table)
            p e7,
        subst (λ x. add_accept got update (initial x table) env.socket ≡ done s) p (e8 ∙ ap done q),
      )

  add_accept-tables :
      (s t : Server) (fd : ℕ)
      → add_accept got update s fd ≡ done t
      → (t.registered_files ≡ s.registered_files)
        × (length t.conns_read ≡ length s.conns_read)
        × (t.conns_write ≡ s.conns_write)
        × (t.conns_poll ≡ s.conns_poll)
  unfolding add_accept enqueue
  add_accept-tables s t fd e = (
    ground arith,
    ground (arith, length-set s.conns_read fd (record { fd = fd; type = accept_type })),
    ground arith,
    ground arith,
  )

  -- When the event loop of version 3 begins, a port and a message length other than 0 are set, the
  -- three tables have the configured number of entries each, and, with fixed files, the table of
  -- registered files is right and notes the listening socket.
  pub setup-tables :
      (c : Config) (s : Server)
      → setup got update env tables ≡ done (c, s)
      → ((is_zero c.portno ≡ false) × (is_zero c.msg_len ≡ false))
        × ((length s.conns_read ≡ to_nat c.max_connections)
            × (length s.conns_write ≡ to_nat c.max_connections)
            × (length s.conns_poll ≡ to_nat c.max_connections))
        × (c.registerfiles ≡ true
            → IsTable s.registered_files
              × (get_elem? s.registered_files env.socket ≡ some (pos env.socket)))
  unfolding init_registerfiles
  setup-tables c s h =
      let (table, e, f, a) = setup-done c s h in
      let (port, len) = configure_passes false env.options env.argv1 c e in
      let (p, q, w, k) = add_accept-tables (initial c table) s env.socket a in
      let n : length (initial c table).conns_read ≡ to_nat c.max_connections =
        length-replicate _ _ in
      (
        (port, len refl),
        (q ∙ n, ap length w ∙ n, ap length k ∙ n),
        λ r.
            let (_, _, v, g) =
              register_listener_lem update (made c) table env.socket
                (init_tables-IsTable env.files (to_nat c.max_connections)) (rw r at f) in
            (subst IsTable (sym p) v, rw p g),
      )
