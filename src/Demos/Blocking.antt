-- ===== src/Demos/Blocking.antt =====
-- demo/tcp_send_recvmsg_demo.c and demo/tcp_send_recvmsg_echo_demo.c: blocking calls, one connection
-- after the other. The programs differ in what they send back.
pub mod Laws
mod Tests
use iowrapper.Base.{
  ℕ, zero, suc, ◌-◌, Bool, List, [], ◌∷◌, ◌++◌, ℤ, pos, negsuc, is_neg, Outcome, done, fault, exit,
  ◌>>=◌, ◌>>◌, exit_if, ltb, ◌==◌, if◌then◌else◌,
}

abbrev pub max_buffer_size : ℕ
max_buffer_size = 1024

-- The calls on a connection, a send with its bytes.
pub data Call : Type 0 where
  receives : ℕ → ℕ → Call
  sends : ℕ → List ℕ → Call
  closes : ℕ → Call

-- The buffer by its indices, and the calls that were made.
pub record Server : Type 0 where
  pub buffer : ℕ → ℕ
  pub calls : List Call

-- What the calls of one turn of the loop return, and the bytes that `recvmsg` delivers.
pub record Turn : Type 0 where
  pub accepted : ℤ
  pub received : ℤ
  pub bytes : ℕ → ℕ
  pub sent : ℤ

-- The first n entries.
abbrev pub first : (ℕ → ℕ) → ℕ → List ℕ
first f zero = []
first f (suc n) = first f n ++ (f n ∷ [])

-- What `recvmsg` does to the buffer when it delivers n bytes.
unfoldable pub deliver : (ℕ → ℕ) → (ℕ → ℕ) → ℕ → ℕ → ℕ
deliver buffer bytes n i = if ltb i n then bytes i else buffer i

-- `buffer[n] = '\0'`
unfoldable pub terminate : (ℕ → ℕ) → ℕ → Outcome (ℕ → ℕ)
terminate buffer n =
    if ltb n max_buffer_size then done (λ i. if i == n then 0 else buffer i) else fault

-- What either program sends back, from the buffer and the number of bytes received.
abbrev pub echoed : (ℕ → ℕ) → ℕ → List ℕ
echoed buffer n = first buffer n

-- "Hello, client!"
abbrev pub greeting : (ℕ → ℕ) → ℕ → List ℕ
greeting buffer n =
    72 ∷ 101 ∷ 108 ∷ 108 ∷ 111 ∷ 44 ∷ 32 ∷ 99 ∷ 108 ∷ 105 ∷ 101 ∷ 110 ∷ 116 ∷ 33 ∷ []

-- The checks before the loop, on what `socket`, `bind` and `listen` return.
pub setup : ℤ → ℤ → ℤ → Outcome ℤ
setup listenfd bound listening = do
  exit_if (is_neg listenfd) 1
  exit_if (is_neg bound) 1
  exit_if (is_neg listening) 1
  done listenfd

abbrev pub call : Server → Call → Server
call s c = record s { calls = s.calls ++ (c ∷ []) }

module _ (reply : (ℕ → ℕ) → ℕ → List ℕ) where
  -- From the receive on. Either result of the send leads to a `close`.
  unfoldable pub converse : Server → ℕ → Turn → Outcome Server
  unfolding deliver terminate
  converse s connfd turn =
      let asked = call s (receives connfd (max_buffer_size - 1)) in
      elim turn.received [
        | negsuc e ↦ done (call asked (closes connfd))
        | pos n ↦
            (terminate (deliver s.buffer turn.bytes n) n >>= λ buffer.
            let s' : Server = record asked { buffer = buffer } in
            let sending = call s' (sends connfd (reply buffer n)) in
            if is_neg turn.sent
            then done (call sending (closes connfd))
            else done (call sending (closes connfd)))
      ]

  -- One turn of the loop.
  unfoldable pub serve : Server → Turn → Outcome Server
  unfolding converse
  serve s turn = elim turn.accepted [ negsuc e ↦ done s | pos connfd ↦ converse s connfd turn ]

  unfoldable pub serve_all : Server → List Turn → Outcome Server
  serve_all s [] = done s
  serve_all s (t ∷ ts) = do s' ← serve s t; serve_all s' ts
