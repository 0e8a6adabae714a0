-- ===== src/Demos/GroupMsg/Tests.antt =====
-- Rounds of the demo with recvmsg and sendmsg on provided buffers, and its theorem at a concrete input.
use iowrapper.Base.{ℕ, ◌+◌, ◌≡◌, refl, Bool, true, [], ℤ, pos, done, if◌then◌else◌}
use iowrapper.Uring.{Cqe}
use iowrapper.ConnInfo.{conn_info, to_user_data}
use iowrapper.IoOp.{write_type}
use iowrapper.IoOp.Weights.{weight}
use iowrapper.Demos.{Server}
use iowrapper.Demos.Weights.{listens, arrives}
use iowrapper.Demos.GroupMsg.{round}
use iowrapper.Demos.GroupMsg.Laws.{
  failed_provision, provides, provided_for, is_alive, round-effects,
}

abbrev plenty : ℕ → Bool
plenty n = true

abbrev empty_server : Server
empty_server = record { sq = []; calls = []; seen = 0 }

abbrev completion : ℕ → ℕ → ℕ → ℤ → ℕ → Cqe ℕ
unfolding conn_info to_user_data
completion fd type bid res flags = record {
  user_data = to_user_data (conn_info fd type bid);
  res = res;
  flags = flags;
}

-- A send from buffer 7 on descriptor 5 has completed, while `sock_conn_fd` holds 9.
abbrev sent : Cqe ℕ
sent = completion 5 write_type 7 (pos 10) 0

round-effects_example :
    (t : Server) × (round plenty 3 9 empty_server (pos 1) sent ≡ done ([], t))
    × (weight (provides 7) t.sq ≡ provided_for 7 sent)
    × (weight listens t.sq ≡ arrives sent)
    × (weight is_alive t.sq ≡ 0)
    × (t.seen ≡ empty_server.seen + (if failed_provision sent then 0 else 1))
round-effects_example = round-effects plenty 3 9 (λ n h. refl) empty_server (pos 1) sent 7 refl
