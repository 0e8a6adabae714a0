-- ===== src/Coroutine/Tests.antt =====
-- Runs of the coroutine server on concrete completions, and the theorems at concrete inputs.
use iowrapper.Base.{
  ℕ, ◌-◌, ◌*◌, ◌^◌, ◌≡◌, refl, Bool, true, none, some, List, [], ◌∷◌, map, ℤ, pos, negsuc, done,
  exit, ◌>>=◌, arith, Outcome, false,
}
use iowrapper.Uring.{Sqe, Cqe, send, row}
use iowrapper.ConnInfo.{ConnInfo, conn_info, to_user_data, of_user_data}
use iowrapper.EchoV0.Requests.{accepts, reads, writes, provides}
use iowrapper.EchoV0
use iowrapper.Coroutine.{
  Server, Task, in_echo_read, in_echo_write, put, emplace, find, on_accept, on_read, on_write,
  handle, handle_all, accept_type, read_type, write_type,
}
use iowrapper.EchoV0.System.{mark}
use iowrapper.Coroutine.System.{
  World, accepted, other, submits, completes, handles, Reach, here, next, start,
}
use iowrapper.Coroutine.Changes.{present}
use iowrapper.Coroutine.Pending.{pending}
use iowrapper.Coroutine.Waiting.{next-IsAwaited}
use iowrapper.Coroutine.Asked.{ask_prep, ask_of, asks, ask, IsAwaited, asked, asked_v0}
use iowrapper.Coroutine.Protocol.{handle-asked}
use iowrapper.EchoV0.Setup.{Env}
use iowrapper.EchoV0.Setup
use iowrapper.Coroutine.Startup.{setup, begins, begins_v0, setup-begins}
use iowrapper.Coroutine.Failure.{handle_failed}

abbrev plenty : ℕ → Bool
plenty n = true

abbrev left : ConnInfo × ℕ
left = (record { fd = 0; type = 0; bid = 0 }, 0)

abbrev empty_server : Server
empty_server = record { sq = []; calls = []; connections = λ fd. none }

abbrev empty_v0 : EchoV0.Server
empty_v0 = record { sq = []; calls = [] }

abbrev reading : Task
reading = record {
  conn_info = record { fd = 5; type = read_type; bid = 0 };
  res = 0;
  point = in_echo_read;
}

abbrev completion : ℕ → ℕ → ℕ → ℤ → ℕ → Cqe ℕ
unfolding conn_info to_user_data
completion fd type bid res flags = record {
  user_data = to_user_data (conn_info fd type bid);
  res = res;
  flags = flags;
}

-- The connection 5 waits for its bytes.
abbrev one_reader : Server
unfolding put
one_reader = record { sq = []; calls = []; connections = put (λ fd. none) 5 (some reading) }

-- A client connects as descriptor 5, sends 10 bytes into the buffer 7, gets them back, and leaves.
abbrev session : List (Cqe ℕ)
session =
    completion 3 accept_type 0 (pos 5) 0
    ∷ completion 5 read_type 0 (pos 10) (7 * 2 ^ 16)
    ∷ completion 5 write_type 7 (pos 10) 0
    ∷ completion 5 read_type 0 (pos 0) (2 * 2 ^ 16)
    ∷ []

session_requests :
    asked (handle_all plenty 3 left empty_server 0 session >>= λ p. done p.0)
    ≡ done
        (map (ask 3) (reads 5 ∷ accepts ∷ writes 5 7 10 ∷ provides 7 ∷ reads 5 ∷ provides 2 ∷ []))
unfolding handle_all handle on_accept on_read on_write conn_info to_user_data of_user_data find
    emplace asks ask ask_of ask_prep
session_requests = refl

-- A completion for a connection without a coroutine ends the process.
unknown_connection :
    handle plenty 3 left empty_server (completion 5 write_type 7 (pos 10) 0) ≡ exit 134
unfolding handle on_write find conn_info to_user_data of_user_data
unknown_connection = refl

handle-asked_example :
    asked (handle plenty 3 left one_reader (completion 5 read_type 0 (pos 10) (7 * 2 ^ 16)))
    ≡ asked_v0 (EchoV0.handle plenty 3 empty_v0 (completion 5 read_type 0 (pos 10) (7 * 2 ^ 16)))
unfolding put conn_info to_user_data of_user_data
handle-asked_example =
    handle-asked plenty 3 6 left (λ n h. refl) one_reader empty_v0
      (completion 5 read_type 0 (pos 10) (7 * 2 ^ 16)) (omega arith) (omega arith) refl
      (
        (λ fd e r. absurd (omega arith)),
        (λ e. (reading, refl, refl, refl)),
        (λ e. absurd (omega arith)),
      )
      (λ e z. absurd (cc z))

-- ECONNRESET: 2 ^ 64 less 104 bytes are sent back from the buffer 0.
handle_failed_example :
    (u : Server) × (x : Sqe ℕ) × (handle plenty 3 left one_reader
        (completion 5 read_type 0 (negsuc 103) 0)
      ≡ done u)
    × (u.sq ≡ x ∷ [])
    × (x.prep ≡ send 5 (row 0) (2 ^ 64 - 1 - 103))
    × (u.calls ≡ [])
    × (t' : Task) × (u.connections 5 ≡ some t')
    × (t'.point ≡ in_echo_write)
unfolding put conn_info to_user_data of_user_data
handle_failed_example =
    handle_failed plenty 3 left one_reader (completion 5 read_type 0 (negsuc 103) 0) reading 103
      (λ n h. refl) refl refl refl refl (omega arith) refl

abbrev started : Env
started = record {
  argc = 2;
  strcmp_sqp = pos 1;
  socket = 3;
  bind = pos 0;
  listen = pos 0;
  queue_init = pos 0;
  fast_poll = true;
  probe = true;
  can_provide = true;
  provided = pos 0;
}

setup-begins_example :
    (setup plenty started >>= λ p. done (begins p))
    ≡ (EchoV0.Setup.setup plenty started >>= λ p. done (begins_v0 p))
setup-begins_example = setup-begins plenty started

abbrev state : Outcome Server → Server
state (done s) = s
state o = empty_server

-- The first accept is submitted and brings the descriptor 5; the server asks for its bytes and submits
-- that; and 10 bytes arrive in the buffer 7.
abbrev accepting : World
accepting = record (start 3) {
  server = record (start 3).server { sq = [] };
  flight = map (λ e. e.user_data) (start 3).server.sq;
}

abbrev connected : World
connected = record accepting {
  flight = [];
  cq = completion 3 accept_type 0 (pos 5) 0 ∷ [];
  opened = mark (λ fd. false) 5 true;
}

abbrev asking : World
asking = record connected {
  server = state (handle plenty 3 left connected.server (completion 3 accept_type 0 (pos 5) 0));
  cq = [];
}

abbrev submitted : World
submitted = record asking {
  server = record asking.server { sq = [] };
  flight = map (λ e. e.user_data) asking.server.sq;
}

abbrev arrived : World
unfolding conn_info to_user_data
arrived = record submitted {
  flight = to_user_data (conn_info 3 accept_type 0) ∷ [];
  cq = completion 5 read_type 0 (pos 10) (7 * 2 ^ 16) ∷ [];
}

Reach-arrived : Reach plenty 3 left (start 3) arrived
unfolding handle on_accept find emplace put conn_info to_user_data of_user_data
Reach-arrived =
    let first : Cqe ℕ = completion 3 accept_type 0 (pos 5) 0 in
    let r1 : Reach plenty 3 left (start 3) accepting = next here (submits refl) in
    let r2 : Reach plenty 3 left (start 3) connected = next r1 (
      completes [] [] first connected.opened refl (omega arith, omega arith)
        (accepted 5 refl refl refl refl) refl) in
    let r3 : Reach plenty 3 left (start 3) asking =
      next r2 (handles first [] asking.server refl refl refl) in
    let r4 : Reach plenty 3 left (start 3) submitted = next r3 (submits refl) in
    next r4 (
      completes [] (to_user_data (conn_info 3 accept_type 0) ∷ [])
        (completion 5 read_type 0 (pos 10) (7 * 2 ^ 16)) submitted.opened refl
        (omega arith, omega arith) (other (λ e. absurd (omega arith)) refl) refl)

next-IsAwaited_example :
    IsAwaited arrived.server (completion 5 read_type 0 (pos 10) (7 * 2 ^ 16))
    × (pending 5 arrived ≡ present (arrived.server.connections 5))
unfolding arrived
next-IsAwaited_example =
    next-IsAwaited plenty 3 left
      (record { fd_in = omega arith; type_in = omega arith; bid_in = omega arith }) arrived
      (completion 5 read_type 0 (pos 10) (7 * 2 ^ 16)) [] 5 Reach-arrived refl
