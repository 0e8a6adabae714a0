-- ===== src/EchoV2/Tests.antt =====
-- A run of version 2, and the theorems at concrete inputs.
use iowrapper.Base.{
  ℕ, ◌≡◌, refl, Bool, true, false, none, List, [], ◌∷◌, ◌++◌, replicate, set, length, ℤ, pos,
  negsuc, done, fault,
}
use iowrapper.Uring.{Sqe, Cqe, accept, send, cell, enqueue}
use iowrapper.Options.{Config}
use iowrapper.EchoV2.{
  Server, ConnInfo, advance, read_type, accept_type, write_type, add_socket_write, on_read,
  end_read, int_product, dispatch, handle, handle_each, handle_all,
}
use iowrapper.EchoV2.Setup.{RingEnv, initial}
use iowrapper.EchoV2.Laws.{returned, bids_of, all_returned, handle_all-ring}

abbrev plenty : ℕ → Bool
plenty n = true

abbrev registers : ℕ → ℤ
registers fd = pos 1

abbrev reading : ℕ → ConnInfo
reading fd = record { fd = fd; type = read_type; multishot_recv = true }

-- The other entries of tables that have 33.
abbrev unused : List ConnInfo
unused = replicate 31 (record { fd = 0; type = 0; multishot_recv = false })

-- Two connections whose receives complete in one batch, with the buffers 5 and 9.
abbrev busy : Server
busy = record {
  sq = [];
  calls = [];
  conns = reading 0 ∷ reading 1 ∷ unused;
  registerfiles = false;
  registered_files = [];
  ring = [];
  buf_added = 3;
}

abbrev batch : List (Cqe ℕ)
batch =
    record { user_data = 0; res = pos 2; flags = 327681 }
    ∷ record { user_data = 1; res = pos 7; flags = 589825 }
    ∷ []

abbrev sending : ℕ → ℕ → ℕ → Sqe ℕ
sending fd bid size = record {
  prep = send fd (cell bid) size;
  flags = record { fixed_file = false; buffer_select = false };
  buf_group = none;
  user_data = fd;
}

abbrev after : Server
after = record busy {
  sq = sending 0 5 2 ∷ sending 1 9 7 ∷ [];
  conns =
      record { fd = 0; type = write_type; multishot_recv = true }
      ∷ record { fd = 1; type = write_type; multishot_recv = true }
      ∷ unused;
  ring = returned 2046 10230 ∷ returned 2046 18414 ∷ advance 2 ∷ [];
  buf_added = 2;
}

after_lem : handle_all plenty registers 0 2046 33 busy batch ≡ done (after, 2)
unfolding handle_all handle_each handle dispatch on_read end_read int_product add_socket_write
    enqueue
after_lem = refl

-- The batch begins with no buffer counted.
abbrev from : Server
from = record busy { buf_added = 0 }

-- The two buffers.
bids_of-batch : bids_of plenty registers 0 2046 33 from batch ≡ 5 ∷ 9 ∷ []
unfolding bids_of handle dispatch on_read end_read int_product add_socket_write enqueue
bids_of-batch = refl

-- A send from the last buffer of the ring, in tables of 33 entries, begins outside of `bufs`.
outside_bufs :
    handle plenty registers 0 2046 33 busy (record { user_data = 0; res = pos 2; flags = 67043329 })
    ≡ fault
unfolding handle dispatch on_read end_read int_product add_socket_write
outside_bufs = refl

handle_all-ring_example :
    (after.ring
      ≡ all_returned plenty registers 0 2046 33 (bids_of plenty registers 0 2046 33 from batch)
        ++ (advance (length (bids_of plenty registers 0 2046 33 from batch)) ∷ []))
    × (length after.sq ≡ length batch)
handle_all-ring_example = handle_all-ring plenty registers 0 2046 33 busy after batch 2 after_lem

abbrev plain : Config
plain = record {
  portno = pos 8080;
  registerfiles = true;
  max_connections = pos 33;
  msg_len = pos 2046;
}

abbrev files : List ℤ
files = negsuc 0 ∷ negsuc 0 ∷ negsuc 0 ∷ pos 3 ∷ negsuc 0 ∷ negsuc 0 ∷ negsuc 0 ∷ negsuc 0 ∷ []

abbrev rings : RingEnv
rings = record { memalign_ring = pos 0; register_ring = pos 0; memalign_pool = pos 0 }

abbrev ready : Server
ready = record (initial plain files) {
  sq =
      record {
        prep = accept 3;
        flags = record { fixed_file = true; buffer_select = false };
        buf_group = none;
        user_data = 3;
      }
      ∷ [];
  conns =
      set (replicate 33 (record { fd = 0; type = 0; multishot_recv = false })) 3
        (record { fd = 3; type = accept_type; multishot_recv = false });
}
