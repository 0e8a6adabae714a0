-- ===== src/EchoV1/Tests.antt =====
-- A run of the server, and the theorems at concrete inputs.
use iowrapper.Base.{
  ℕ, ◌≡◌, refl, Bool, true, false, some, List, [], ◌∷◌, replicate, get_elem?, set, length, is_zero,
  ℤ, pos, negsuc, done, fault, arith,
}
use iowrapper.Uring.{Cqe, accept, recv, row}
use iowrapper.Registry.{register_fd}
use iowrapper.EchoV1.{
  Server, handle, on_accept, dispatch, add_accept, add_socket_read, accept_type, read_type,
}
use iowrapper.Options.{Config, configure, parse, check, positional, finish_config, defaults}
use iowrapper.Startup.{alloc_bufs, open_ring, register_listener}
use iowrapper.Startup.Tests.{good}
use iowrapper.Registry.{init_registerfiles, init_tables, fill_minus}
use iowrapper.Registry.Laws.{IsTable}
use iowrapper.EchoV1.Setup.{setup, initial, setup-one_request, setup-IsTable}
use iowrapper.EchoV1.System.{World, submits, completes, accepted, Reach, here, next, mark}
use iowrapper.EchoV1.Answers.{info, entry}
use iowrapper.EchoV1.Table.{load}
use iowrapper.EchoV1.Safety.{start, table_agrees, one_request, accept_fails, accept_beyond}

abbrev plenty : ℕ → Bool
plenty n = true

abbrev registers : ℕ → ℤ
registers fd = pos 1

-- A table of eight entries; the listening socket is 3.
abbrev fresh : Server
fresh = record {
  sq = [];
  calls = [];
  conns = replicate 8 (info 0 0);
  registerfiles = false;
  registered_files = [];
  seen = 0;
  workcount = 0;
}

abbrev listening : Server
listening = record fresh {
  sq = entry fresh 3 (accept 3) ∷ [];
  conns =
      info 0 0
      ∷ info 0 0
      ∷ info 0 0
      ∷ info 3 accept_type
      ∷ info 0 0
      ∷ info 0 0
      ∷ info 0 0
      ∷ info 0 0
      ∷ [];
}

listening_lem : add_accept plenty registers fresh 3 ≡ done listening
unfolding add_accept
listening_lem = refl

abbrev arrival : Cqe ℕ
arrival = record { user_data = 3; res = pos 5; flags = 0 }

abbrev idle : Server
idle = record listening { sq = [] }

abbrev submitted : World
submitted = record {
  server = idle;
  flight = entry fresh 3 (accept 3) ∷ [];
  cq = [];
  opened = λ fd. false;
}

abbrev arrived : World
arrived = record submitted {
  flight = [];
  cq = (entry fresh 3 (accept 3), arrival) ∷ [];
  opened = mark (λ fd. false) 5 true;
}

Reach-arrived : Reach plenty registers 3 2046 (start listening) arrived
Reach-arrived = next {u = submitted} (next {u = start listening} here (submits refl)) (
    completes [] [] (entry fresh 3 (accept 3)) arrival (mark (λ fd. false) 5 true) refl refl
      (accepted 3 5 refl refl refl (λ e. absurd (omega arith)) refl) refl)

table_agrees_example : get_elem? arrived.server.conns 3 ≡ some (info 3 accept_type)
table_agrees_example =
    table_agrees plenty registers 3 2046 fresh listening arrived (entry fresh 3 (accept 3)) arrival
      [] refl listening_lem Reach-arrived refl

one_request_example : load 5 arrived ≡ 1
one_request_example =
    one_request plenty registers 3 2046 fresh listening arrived 5 refl listening_lem Reach-arrived

accept_fails_example :
    handle plenty registers 3 2046 idle (record { user_data = 3; res = negsuc 23; flags = 0 })
    ≡ fault
accept_fails_example =
    accept_fails plenty registers 3 2046 idle (record { user_data = 3; res = negsuc 23; flags = 0 })
      23 refl refl (λ n h. refl)

accept_beyond_example :
    handle plenty registers 3 2046 idle (record { user_data = 3; res = pos 8; flags = 0 }) ≡ fault
accept_beyond_example =
    accept_beyond plenty registers 3 2046 idle (record { user_data = 3; res = pos 8; flags = 0 }) 8
      refl refl (omega arith) refl (λ n h. refl)

-- The read of the connection 5 and the next accept.
accept_handled :
    handle plenty registers 3 2046 idle arrival
    ≡ done (record idle {
      sq = entry idle 3 (accept 3) ∷ entry idle 5 (recv 5 (row 5) 2046) ∷ [];
      conns =
          info 0 0
          ∷ info 0 0
          ∷ info 0 0
          ∷ info 3 accept_type
          ∷ info 0 0
          ∷ info 5 read_type
          ∷ info 0 0
          ∷ info 0 0
          ∷ [];
      seen = 1;
    })
unfolding handle dispatch on_accept add_accept add_socket_read register_fd
accept_handled = refl

-- `main` in an environment in which every call succeeds.
abbrev plain : Config
plain = record {
  portno = pos 8080;
  registerfiles = true;
  max_connections = pos 33;
  msg_len = pos 2046;
}

abbrev files : List ℤ
files = negsuc 0 ∷ negsuc 0 ∷ negsuc 0 ∷ pos 3 ∷ negsuc 0 ∷ negsuc 0 ∷ negsuc 0 ∷ negsuc 0 ∷ []

abbrev ready : Server
ready = record (initial plain files) {
  sq = entry (initial plain files) 3 (accept 3) ∷ [];
  conns = set (replicate 33 (info 0 0)) 3 (info 3 accept_type);
}

setup-ready : setup plenty registers good ≡ done (plain, ready)
unfolding setup configure parse check positional finish_config defaults alloc_bufs open_ring
    register_listener init_registerfiles init_tables fill_minus add_accept
setup-ready = refl

setup-one_request_example : load 3 (start ready) ≡ 1
setup-one_request_example =
    setup-one_request plenty registers good plain ready (start ready) 3 setup-ready here

setup-IsTable_example :
    ((is_zero plain.portno ≡ false) × (is_zero plain.msg_len ≡ false))
    × (length ready.conns ≡ 33)
    × (plain.registerfiles ≡ true
        → IsTable ready.registered_files × (get_elem? ready.registered_files 3 ≡ some (pos 3)))
setup-IsTable_example = setup-IsTable plenty registers good plain ready setup-ready
