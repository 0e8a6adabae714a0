-- ===== src/EchoV0/Tests.antt =====
-- Runs of the server on concrete completions, and the theorems at concrete inputs.
use iowrapper.Base.{
  ℕ, ◌+◌, ◌*◌, ◌^◌, ◌≡◌, refl, ◌⊎◌, Bool, true, false, some, List, [], ◌∷◌, ℤ, pos, negsuc, done,
  exit, arith,
}
use iowrapper.Uring.{Cqe, close, provide_buffers, row}
use iowrapper.ConnInfo.{conn_info, to_user_data, of_user_data}
use iowrapper.EchoV0.{
  Server, handle, on_accept, on_read, handle_all, buffers_count, max_message_len, group_id,
}
use iowrapper.EchoV0.Requests.{
  Request, accepts, reads, writes, provides, entry, info_of, answer, outcome_of, handle-answer,
}
use iowrapper.EchoV0.System.{
  World, submits, completes, handles, accepted, receive_failed, Reach, here, next, start, mark,
}
use iowrapper.EchoV0.Buffers.{bids, holders, one_holder}
use iowrapper.EchoV0.Connections.{accepts_pending, one_accept, pending, one_pending}
use iowrapper.EchoV0.Batch.{answers, batch_outcome, handle_all-answers}
use iowrapper.EchoV0.Setup.{Env, setup, checks, setup_lem, params_of}

abbrev plenty : ℕ → Bool
plenty n = true

abbrev empty_server : Server
empty_server = record { sq = []; calls = [] }

-- The completion of a request, with the listening socket 3.
abbrev completion : Request → ℤ → ℕ → Cqe ℕ
unfolding conn_info to_user_data
completion r res flags = record { user_data = to_user_data (info_of 3 r); res = res; flags = flags }

-- A client connects as descriptor 5.
read_after_accept :
    handle plenty 3 empty_server (completion accepts (pos 5) 0)
    ≡ done (record { sq = entry 3 (reads 5) ∷ entry 3 accepts ∷ []; calls = [] })
unfolding handle on_accept conn_info to_user_data of_user_data
read_after_accept = refl

-- A failed accept is tried again.
accept_again :
    handle plenty 3 empty_server (completion accepts (negsuc 23) 0)
    ≡ done (record { sq = entry 3 accepts ∷ []; calls = [] })
unfolding handle on_accept conn_info to_user_data of_user_data
accept_again = refl

-- A peer that closed: the buffer 7 goes back and the connection is closed.
closed_by_peer :
    handle plenty 3 empty_server (completion (reads 5) (pos 0) (7 * 2 ^ 16))
    ≡ done (record { sq = entry 3 (provides 7) ∷ []; calls = close 5 ∷ [] })
unfolding handle on_read conn_info to_user_data of_user_data
closed_by_peer = refl

no_buffers : handle plenty 3 empty_server (completion (reads 5) (negsuc 104) 0) ≡ exit 1
unfolding handle conn_info to_user_data of_user_data
no_buffers = refl

-- An accept, an echo of 10 bytes through buffer 7, and the next read.
abbrev echo_batch : List (Cqe ℕ)
echo_batch =
    completion accepts (pos 5) 0
    ∷ completion (reads 5) (pos 10) (7 * 2 ^ 16)
    ∷ completion (writes 5 7 10) (pos 10) 0
    ∷ []

handle_all-answers_example :
    handle_all plenty 3 empty_server 0 echo_batch
    ≡ batch_outcome 3 empty_server 3 (answers echo_batch)
handle_all-answers_example =
    handle_all-answers plenty 3 6 (λ n h. refl) empty_server echo_batch (omega arith)

-- The batch asks for the read, the accept, the write, the provision and the next read.
answers-echo :
    answers echo_batch ≡ some (reads 5 ∷ accepts ∷ writes 5 7 10 ∷ provides 7 ∷ reads 5 ∷ [], [])
unfolding answers answer conn_info to_user_data of_user_data
answers-echo = refl

handle-answer_example :
    handle plenty 3 empty_server (completion (reads 5) (pos 10) (7 * 2 ^ 16))
    ≡ outcome_of 3 empty_server (
        answer
          (of_user_data (completion (reads 5) (pos 10) (7 * 2 ^ 16)).user_data)
          (pos 10)
          (7 * 2 ^ 16))
unfolding conn_info to_user_data
handle-answer_example =
    handle-answer plenty 3 2 empty_server (completion (reads 5) (pos 10) (7 * 2 ^ 16)) (λ n h. refl)
      (omega arith)

-- The first moments of a run: the accept is submitted and completes with descriptor 5, which is
-- handled; the read is submitted and completes with buffer 1.
module _ (pool : List ℕ) where
  abbrev submitted : World
  submitted = record (start pool) { sq = []; flight = accepts ∷ [] }

  abbrev connected : World
  connected = record submitted {
    kernel = record { pool = pool; lost = []; failed = 0; opened = mark (λ fd. false) 5 true };
    flight = [];
    cq = completion accepts (pos 5) 0 ∷ [];
  }

  abbrev handled : World
  handled = record connected { sq = reads 5 ∷ accepts ∷ []; cq = [] }

  abbrev reading : World
  reading = record handled { sq = []; flight = reads 5 ∷ accepts ∷ [] }

  Reach-reading : Reach plenty 3 (start pool) reading
  unfolding handle on_accept conn_info to_user_data of_user_data
  Reach-reading =
      next {u = handled}
        (next {u = connected}
          (next {u = submitted} (next {u = start pool} here (submits refl)) (
            completes [] [] accepts (completion accepts (pos 5) 0) connected.kernel refl refl
              (omega arith) (accepted 5 refl refl refl) refl))
          (handles (completion accepts (pos 5) 0) []
            (record { sq = entry 3 (reads 5) ∷ entry 3 accepts ∷ []; calls = [] })
            (reads 5 ∷ accepts ∷ []) refl refl refl refl))
        (submits refl)

-- Then the receive fails with ECONNRESET and no buffer.
abbrev reset : World
reset = record (reading (bids buffers_count)) {
  kernel = record (reading (bids buffers_count)).kernel { failed = 1 };
  flight = accepts ∷ [];
  cq = completion (reads 5) (negsuc 103) 0 ∷ [];
}

Reach-reset : Reach plenty 3 (start (bids buffers_count)) reset
unfolding to_user_data completion
Reach-reset = next {u = reading (bids buffers_count)} (Reach-reading (bids buffers_count)) (
    completes [] (accepts ∷ []) (reads 5) (completion (reads 5) (negsuc 103) 0) reset.kernel refl
      refl (omega arith) (receive_failed refl refl refl refl) refl)

abbrev three_buffers : List ℕ
three_buffers = 2 ∷ 1 ∷ 0 ∷ []

-- The completion counts as a second holder of buffer 0.
one_holder_example : holders 0 reset ≡ 1 + 1
one_holder_example = one_holder plenty 3 0 reset (omega arith) Reach-reset

one_accept_example : accepts_pending (reading three_buffers) ≡ 1
one_accept_example =
    one_accept plenty 3 three_buffers (reading three_buffers) (Reach-reading three_buffers)

one_pending_example : pending 5 (reading three_buffers) ≡ 1
one_pending_example =
    one_pending plenty 3 5 three_buffers (reading three_buffers) (Reach-reading three_buffers)

abbrev good_env : Env
good_env = record {
  argc = 2;
  strcmp_sqp = pos 0;
  socket = 3;
  bind = pos 0;
  listen = pos 0;
  queue_init = pos 0;
  fast_poll = true;
  probe = true;
  can_provide = true;
  provided = pos 0;
}

setup_lem_example :
    (checks good_env ≡ true
      → setup plenty good_env
        ≡ done (record {
          listen_fd = 3;
          params = params_of good_env;
          registered = provide_buffers (row 0) max_message_len buffers_count group_id 0;
          server = record { sq = entry 3 accepts ∷ []; calls = [] };
        }))
    × (checks good_env ≡ false
        → (setup plenty good_env ≡ exit 0) ⊎ (setup plenty good_env ≡ exit 1))
setup_lem_example = setup_lem plenty good_env refl
