-- ===== src/Demos/OneBuffer/Tests.antt =====
-- Rounds of the demo with one buffer on concrete completions, and its theorem at a concrete input.
use iowrapper.Base.{ℕ, ◌+◌, ◌≡◌, refl, Bool, true, [], ℤ, pos, done, ◌>>=◌, total}
use iowrapper.Uring.{Cqe}
use iowrapper.ConnInfo.{conn_info, to_user_data, of_user_data}
use iowrapper.IoOp.{accept_type, read_type, add_accept, add_recvmsg}
use iowrapper.IoOp.Weights.{weight}
use iowrapper.Demos.{Server}
use iowrapper.Demos.Weights.{listens, arrives}
use iowrapper.Demos.OneBuffer.{on_accept, handle, round}
use iowrapper.Demos.OneBuffer.Laws.{serves, closes, concerns, is_alive, round-serves}

abbrev plenty : ℕ → Bool
plenty n = true

abbrev empty_server : Server
empty_server = record { sq = []; calls = []; seen = 0 }

abbrev completion : ℕ → ℕ → ℕ → ℤ → ℕ → Cqe ℕ
unfolding conn_info to_user_data
completion fd type bid res flags = record {
  user_data = to_user_data (conn_info fd type bid);
  res = res;
  flags = flags;
}

-- 10 bytes have arrived on descriptor 5.
abbrev arrived : Cqe ℕ
arrived = completion 5 read_type 0 (pos 10) 0

round-serves_example :
    (t : Server) × (round plenty 3 empty_server (pos 1) arrived ≡ done ([], t))
    × (weight (serves 5) t.sq + total (closes 5) t.calls
        ≡ total (closes 5) empty_server.calls + concerns 5 arrived)
    × (weight listens t.sq ≡ arrives arrived)
    × (weight is_alive t.sq ≡ 0)
round-serves_example = round-serves plenty 3 (λ n h. refl) empty_server (pos 1) arrived 5 refl

-- Two connections are accepted, each with a receive whose message is gone.
both_prepared :
    (handle plenty 3 empty_server (completion 3 accept_type 0 (pos 5) 0) >>= λ s.
    handle plenty 3 s (completion 3 accept_type 0 (pos 6) 0) >>= λ s'.
    done (weight is_alive s'.sq + weight (serves 5) s'.sq + weight (serves 6) s'.sq))
    ≡ done 2
unfolding handle on_accept conn_info to_user_data of_user_data add_accept add_recvmsg weight
both_prepared = refl
