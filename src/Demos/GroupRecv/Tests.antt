-- ===== src/Demos/GroupRecv/Tests.antt =====
-- Rounds of the demo with recv and send on concrete completions, and the theorems at concrete inputs.
use iowrapper.Base.{
  All, is_minus, false, arith, ℕ, ◌+◌, ◌*◌, ◌^◌, ◌≡◌, refl, Bool, true, List, [], ◌∷◌, ℤ, pos,
  negsuc, done, fault, total, if◌then◌else◌, ◌==◌,
}
use iowrapper.Uring.{enobufs, Cqe}
use iowrapper.ConnInfo.{conn_info, to_user_data}
use iowrapper.IoOp.{accept_type, read_type, write_type}
use iowrapper.IoOp.Weights.{weight}
use iowrapper.Demos.{Server}
use iowrapper.Demos.Weights.{listens, arrives, receives, brings, echoes, tally}
use iowrapper.Demos.GroupRecv.{handle_each, handle_all}
use iowrapper.Demos.GroupRecv.Batch.{handle_each-rearms}

abbrev plenty : ℕ → Bool
plenty n = true

abbrev empty_server : Server
empty_server = record { sq = []; calls = []; seen = 0 }

abbrev completion : ℕ → ℕ → ℕ → ℤ → ℕ → Cqe ℕ
unfolding conn_info to_user_data
completion fd type bid res flags = record {
  user_data = to_user_data (conn_info fd type bid);
  res = res;
  flags = flags;
}

-- A client connects as descriptor 5, another accept fails, 10 bytes arrive in buffer 7, and go back.
abbrev batch : List (Cqe ℕ)
batch =
    completion 3 accept_type 0 (pos 5) 0
    ∷ completion 3 accept_type 0 (negsuc 23) 0
    ∷ completion 5 read_type 0 (pos 10) (7 * 2 ^ 16)
    ∷ completion 5 write_type 7 (pos 10) 0
    ∷ []

-- `sock_conn_fd` holds 9 in the branch of a send.
abbrev stale : ℕ → ℕ
stale k = 9

-- The wait of a round writes through the address 1.
round_faults : handle_all plenty 3 stale empty_server (pos 0) batch ≡ fault
unfolding handle_all
round_faults = refl

no_enobufs : All (λ c. is_minus c.res enobufs ≡ false) batch
unfolding completion
no_enobufs = (refl, (refl, (refl, (refl, tt))))

handle_each-rearms_example :
    (p : Server × ℕ) × (handle_each plenty 3 stale empty_server 0 batch ≡ done p)
    × (weight listens p.0.sq ≡ weight listens empty_server.sq + total arrives batch)
    × (weight (receives 5) p.0.sq
        ≡ weight (receives 5) empty_server.sq
          + tally (λ n c. brings 5 c + (if stale n == 5 then echoes c else 0)) 0 batch)
handle_each-rearms_example =
    handle_each-rearms plenty 3 stale 8 (λ n h. refl) empty_server 0 batch 5 (omega arith)
      no_enobufs
