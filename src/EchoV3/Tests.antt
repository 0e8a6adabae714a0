-- ===== src/EchoV3/Tests.antt =====
-- A run of version 3, and the theorems at concrete inputs.
use iowrapper.Base.{
  ℕ, ◌+◌, ◌≡◌, refl, Bool, true, false, none, some, List, [], ◌∷◌, replicate, get_elem?, set,
  length, is_zero, ℤ, pos, negsuc, done,
}
use iowrapper.Uring.{Sqe, Cqe, accept, recv, send, row, enqueue}
use iowrapper.Options.{Config, configure, parse, check, positional, finish_config, defaults}
use iowrapper.Startup.{alloc_bufs, open_ring, register_listener}
use iowrapper.Startup.Tests.{good}
use iowrapper.Registry.{init_tables, fill_minus}
use iowrapper.Registry.Laws.{IsTable}
use iowrapper.EchoV3.{
  Server, ConnInfo, Ptr, in_read, in_write, in_poll, read_type, accept_type, write_type,
  poll_in_ready_type, init_registerfiles, add_accept, add_read, add_socket_write, on_read, on_poll,
  dispatch, handle, handle_all, fixed,
}
use iowrapper.EchoV3.Setup.{TablesEnv, initial, setup, setup-tables}
use iowrapper.EchoV3.Laws.{handle-seen}

abbrev plenty : ℕ → Bool
plenty n = true

abbrev registers : ℕ → ℤ
registers fd = pos 1

abbrev nothing : ConnInfo
nothing = record { fd = 0; type = 0 }

-- The connection 1 with a receive that has completed and a poll that fires again.
abbrev busy : Server
busy = record {
  sq = [];
  calls = [];
  conns_read = nothing ∷ record { fd = 1; type = read_type } ∷ [];
  conns_write = nothing ∷ nothing ∷ [];
  conns_poll = nothing ∷ record { fd = 1; type = poll_in_ready_type } ∷ [];
  registerfiles = false;
  registered_files = [];
  seen = 7;
  clients = 1;
}

abbrev received : Cqe Ptr
received = record { user_data = in_read 1; res = pos 5; flags = 0 }

abbrev polled : Cqe Ptr
polled = record { user_data = in_poll 1; res = pos 1; flags = 2 }

abbrev sending : Sqe Ptr
sending = record {
  prep = send 1 (row 1) 5;
  flags = fixed plenty registers busy;
  buf_group = none;
  user_data = in_write 1;
}

abbrev receiving : Sqe Ptr
receiving = record {
  prep = recv 1 (row 1) 2046;
  flags = fixed plenty registers busy;
  buf_group = none;
  user_data = in_read 1;
}

abbrev sent : Server
sent = record busy {
  sq = sending ∷ [];
  conns_write = nothing ∷ record { fd = 1; type = write_type } ∷ [];
  seen = 8;
}

sent_lem : handle plenty registers 0 2046 busy received ≡ done sent
unfolding handle dispatch on_read add_socket_write enqueue
sent_lem = refl

handle-seen_example : sent.seen ≡ 7 + 1
handle-seen_example =
    handle-seen plenty registers 0 2046 busy sent received (record { fd = 1; type = read_type })
      refl sent_lem

abbrev both : Server
both = record sent { sq = sending ∷ receiving ∷ []; seen = 9 }

-- A batch of a read and then an event of the same connection's poll: the send of what was read and a
-- receive into the very same buffer are queued one behind the other.
both_lem : handle_all plenty registers 0 2046 busy (received ∷ polled ∷ []) ≡ done both
unfolding handle_all handle dispatch on_read on_poll add_socket_write add_read enqueue
both_lem = refl

abbrev plain : Config
plain = record {
  portno = pos 8080;
  registerfiles = true;
  max_connections = pos 33;
  msg_len = pos 2046;
}

abbrev files : List ℤ
files = set (replicate 33 (negsuc 0)) 3 (pos 3)

abbrev tables : TablesEnv
tables = record { calloc_write = λ n. true; calloc_poll = λ n. true }

abbrev ready : Server
ready = record (initial plain files) {
  sq =
      record {
        prep = accept 3;
        flags = fixed plenty registers (initial plain files);
        buf_group = none;
        user_data = in_read 3;
      }
      ∷ [];
  conns_read = set (replicate 33 nothing) 3 (record { fd = 3; type = accept_type });
}

setup-ready : setup plenty registers good tables ≡ done (plain, ready)
unfolding setup configure parse check positional finish_config defaults alloc_bufs open_ring
    register_listener init_registerfiles init_tables fill_minus add_accept enqueue
setup-ready = refl

setup-tables_example :
    ((is_zero plain.portno ≡ false) × (is_zero plain.msg_len ≡ false))
    × ((length ready.conns_read ≡ 33)
        × (length ready.conns_write ≡ 33)
        × (length ready.conns_poll ≡ 33))
    × (plain.registerfiles ≡ true
        → IsTable ready.registered_files × (get_elem? ready.registered_files 3 ≡ some (pos 3)))
setup-tables_example = setup-tables plenty registers good tables plain ready setup-ready
