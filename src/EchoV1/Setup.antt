-- ===== src/EchoV1/Setup.antt =====
-- `main` of version 1 up to the event loop, and what it means for the loop.
use iowrapper.Base.{
  ℕ, ◌+◌, ◌≡◌, refl, sym, subst, Bool, true, false, not, some, [], List, length, length-replicate,
  length-set, replicate, ◌∙◌, get_elem?, ℤ, pos, to_nat, is_zero, same, Outcome, done, exit_if,
  ◌>>=◌, ◌>>◌, >>=-eq-done, ap,
}
use iowrapper.Options.{Config, configure}
use iowrapper.Options.Laws.{configure_passes}
use iowrapper.Registry.{init_registerfiles}
use iowrapper.Registry.Laws.{IsTable, init_registerfiles-IsTable}
use iowrapper.Startup.{Env, alloc_bufs, open_ring, register_listener}
use iowrapper.Startup.Laws.{register_listener_lem}
use iowrapper.EchoV1.{Server, add_accept, accept_type}
use iowrapper.EchoV1.System.{World, Reach}
use iowrapper.EchoV1.Answers.{add_request-done}
use iowrapper.EchoV1.Table.{load, bit}
use iowrapper.EchoV1.Safety.{start, one_request}

-- The server as the first accept is added.
abbrev pub initial : Config → List ℤ → Server
initial c table = record {
  sq = [];
  calls = [];
  conns = replicate (to_nat c.max_connections) (record { fd = 0; type = 0 });
  registerfiles = c.registerfiles;
  registered_files = table;
  seen = 0;
  workcount = 0;
}

unfoldable pub setup : (ℕ → Bool) → (ℕ → ℤ) → Env → Outcome (Config × Server)
setup got update env = do
  c ← configure false env.options env.argv1
  exit_if (not (env.calloc_conns c.max_connections)) 1
  alloc_bufs env (to_nat c.max_connections) 0
  open_ring env
  table ← register_listener update c.registerfiles (init_registerfiles env.files) env.socket
  server ← add_accept got update (initial c table) env.socket
  done (c, server)

module _ (got : ℕ → Bool) (update : ℕ → ℤ) (env : Env) where
  setup-done :
      (c : Config) (s : Server)
      → setup got update env ≡ done (c, s)
      → (table : List ℤ) × (configure false env.options env.argv1 ≡ done c)
        × (register_listener update c.registerfiles (init_registerfiles env.files) env.socket
            ≡ done table)
        × (add_accept got update (initial c table) env.socket ≡ done s)
  unfolding setup
  setup-done c s h =
      let (c', e1, h1) = >>=-eq-done (configure false env.options env.argv1) _ h in
      let (_, _, h2) = >>=-eq-done (exit_if (not (env.calloc_conns c'.max_connections)) 1) _ h1 in
      let (_, _, h3) = >>=-eq-done (alloc_bufs env (to_nat c'.max_connections) 0) _ h2 in
      let (_, _, h4) = >>=-eq-done (open_ring env) _ h3 in
      let (table, e5, h5) =
        >>=-eq-done
          (register_listener update c'.registerfiles (init_registerfiles env.files) env.socket) _
          h4 in
      let (s', e6, h6) = >>=-eq-done (add_accept got update (initial c' table) env.socket) _ h5 in
      let p : c' ≡ c = cc h6 in
      let q : s' ≡ s = cc h6 in
      (
        table,
        e1 ∙ ap done p,
        subst
            (λ (x : Config).
              register_listener update x.registerfiles (init_registerfiles env.files) env.socket
              ≡ done table)
            p e5,
        subst (λ x. add_accept got update (initial x table) env.socket ≡ done s) p (e6 ∙ ap done q),
      )

  -- Version 1 as a whole: if its `main` comes to the event loop, then in every state that the loop
  -- and the kernel reach, each entry of `conns` has one pending request or completion if it is that
  -- of an open connection, one if it is that of the listening socket, and none otherwise.
  pub setup-one_request :
      (c : Config) (s : Server) (w : World) (i : ℕ)
      → setup got update env ≡ done (c, s)
      → Reach got update env.socket (to_nat c.msg_len) (start s) w
      → load i w ≡ bit (w.opened i) + same env.socket i
  setup-one_request c s w i h r =
      let (table, _, _, e) = setup-done c s h in
      one_request got update env.socket (to_nat c.msg_len) (initial c table) s w i refl e r

  add_accept-files :
      (c : Config) (table : List ℤ) (s : Server)
      → add_accept got update (initial c table) env.socket ≡ done s
      → (s.registered_files ≡ table) × (length s.conns ≡ to_nat c.max_connections)
  unfolding add_accept
  add_accept-files c table s e =
      let (b, r) = add_request-done got update (initial c table) s env.socket accept_type _ e in
      let l : length (initial c table).conns ≡ to_nat c.max_connections = length-replicate _ _ in
      (
        ap (λ x. x.registered_files) r,
        ap (λ (x : Server). length x.conns) r ∙ length-set _ env.socket _ ∙ l,
      )

  -- When the event loop of version 1 begins, a port and a message length other than 0 are set,
  -- `conns` has the configured number of entries, and, with fixed files, the table of registered
  -- files is right and notes the listening socket.
  pub setup-IsTable :
      (c : Config) (s : Server)
      → setup got update env ≡ done (c, s)
      → ((is_zero c.portno ≡ false) × (is_zero c.msg_len ≡ false))
        × (length s.conns ≡ to_nat c.max_connections)
        × (c.registerfiles ≡ true
            → IsTable s.registered_files
              × (get_elem? s.registered_files env.socket ≡ some (pos env.socket)))
  setup-IsTable c s h =
      let (table, e, f, a) = setup-done c s h in
      let (port, len) = configure_passes false env.options env.argv1 c e in
      let (p, q) = add_accept-files c table s a in
      (
        (port, len refl),
        q,
        λ r.
            let (_, _, v, g) =
              register_listener_lem update (init_registerfiles env.files) table env.socket
                (init_registerfiles-IsTable env.files) (rw r at f) in
            (subst IsTable (sym p) v, rw p g),
      )
