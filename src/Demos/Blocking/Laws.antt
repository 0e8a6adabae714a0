-- ===== src/Demos/Blocking/Laws.antt =====
-- The blocking demos over a run of turns: replies and closes.
use mathlib.Core.List.{append_assoc, append-nil}
use iowrapper.Base.{
  ℕ, zero, suc, ◌+◌, ◌-◌, ◌<◌, ◌≤◌, ◌≡◌, refl, sym, List, [], ◌∷◌, ◌++◌, ℤ, pos, negsuc, is_neg,
  to_nat, same, done, ◌==◌, if◌then◌else◌, arith, lt→ltb, All, total, total-append,
}
use iowrapper.Demos.Blocking.{
  Call, receives, sends, closes, Server, Turn, max_buffer_size, first, deliver, terminate, converse,
  serve, serve_all,
}

first-cong : (f g : ℕ → ℕ) (n : ℕ) → ((i : ℕ) → i < n → f i ≡ g i) → first f n ≡ first g n
first-cong f g zero h = refl
first-cong f g (suc n) h = rw (first-cong f g n (λ i k. h i (omega arith)), h n (omega arith))

-- The buffer behind the terminator is not what was received, but before it it is.
first-terminated :
    (buffer bytes : ℕ → ℕ) (n : ℕ)
    → first (λ i. if i == n then 0 else deliver buffer bytes n i) n ≡ first bytes n
unfolding deliver
first-terminated buffer bytes n = first-cong _ bytes n (λ i k. ground arith)

-- The counts of the closes of a connection, and of the turns that accept it.
abbrev pub closings : ℕ → Call → ℕ
closings fd (closes n) = same n fd
closings fd c = 0

abbrev pub accepts : ℕ → Turn → ℕ
accepts fd turn = if is_neg turn.accepted then 0 else same (to_nat turn.accepted) fd

-- `recvmsg` delivers no more bytes than it was asked for.
abbrev pub IsWithin : Turn → Type 0
IsWithin turn = to_nat turn.received ≤ max_buffer_size - 1

module _ (reply : (ℕ → ℕ) → ℕ → List ℕ) where
  -- What a client gets, by what it sent.
  abbrev pub answer : Turn → List Call
  answer turn = elim turn.accepted [
    | negsuc e ↦ []
    | pos fd ↦ receives fd (max_buffer_size - 1) ∷ elim turn.received [
      | negsuc e ↦ closes fd ∷ []
      | pos n ↦ sends fd (reply turn.bytes n) ∷ closes fd ∷ []
    ]
  ]

  abbrev pub answers : List Turn → List Call
  answers [] = []
  answers (t ∷ ts) = answer t ++ answers ts

  answer-closings :
      (fd : ℕ) (accepted received : ℤ) (bytes : ℕ → ℕ) (sent : ℤ)
      → total
          (closings fd)
          (answer (record { accepted = accepted; received = received; bytes = bytes; sent = sent }))
        ≡ (if is_neg accepted then 0 else same (to_nat accepted) fd)
  answer-closings fd (negsuc e) r b t = refl
  answer-closings fd (pos n) (negsuc e) b t = omega arith
  answer-closings fd (pos n) (pos k) b t = omega arith

  answers-closings :
      (fd : ℕ) (ts : List Turn) → total (closings fd) (answers ts) ≡ total (accepts fd) ts
  answers-closings fd [] = refl
  answers-closings fd (t ∷ ts) = omega (
    arith,
    total-append (closings fd) (answer t) (answers ts),
    answers-closings fd ts,
    answer-closings fd t.accepted t.received t.bytes t.sent,
  )

  -- `reply` reads the bytes that were received and no other.
  module _ (reads : (f g : ℕ → ℕ) (n : ℕ) → first f n ≡ first g n → reply f n ≡ reply g n) where
    module _ (s : Server) (fd n : ℕ) (bytes : ℕ → ℕ) (within : n ≤ max_buffer_size - 1) where
      abbrev ended : ℕ → ℕ
      ended i = if i == n then 0 else deliver s.buffer bytes n i

      abbrev final : Server
      final = record {
        buffer = ended;
        calls =
            ((s.calls ++ (receives fd (max_buffer_size - 1) ∷ []))
              ++ (sends fd (reply ended n) ∷ []))
            ++ (closes fd ∷ []);
      }

      final-calls :
          final.calls
          ≡ s.calls
            ++ (receives fd (max_buffer_size - 1) ∷ sends fd (reply bytes n) ∷ closes fd ∷ [])
      final-calls =
          rw (append_assoc, append_assoc, reads ended bytes n (first-terminated s.buffer bytes n))

      converse-received :
          (accepted sent : ℤ)
          → converse reply s fd
              (record { accepted = accepted; received = pos n; bytes = bytes; sent = sent })
            ≡ done final
      unfolding converse terminate
      converse-received a (pos k) = rw (lt→ltb n max_buffer_size (omega arith))
      converse-received a (negsuc k) = rw (lt→ltb n max_buffer_size (omega arith))

    serve-answer :
        (s : Server) (accepted received : ℤ) (bytes : ℕ → ℕ) (sent : ℤ)
        → let turn : Turn = record {
          accepted = accepted;
          received = received;
          bytes = bytes;
          sent = sent;
        } in
          IsWithin turn
          → (t : Server) × (serve reply s turn ≡ done t) × (t.calls ≡ s.calls ++ answer turn)
    unfolding serve converse
    serve-answer s (negsuc e) r b k h = (s, refl, sym (append-nil s.calls))
    serve-answer s (pos fd) (negsuc e) b k h = (_, refl, append_assoc s.calls _ _)
    serve-answer s (pos fd) (pos n) b k h =
        (final s fd n b h, converse-received s fd n b h (pos fd) k, final-calls s fd n b h)

    -- If no receive delivers more bytes than were asked for, either program comes through every
    -- sequence of turns: a client whose receive succeeds is sent the reply to just what it sent, the
    -- terminator and what others sent before left out, and every connection that is accepted is
    -- closed as often as it was accepted.
    pub serve_all-answers :
        (s : Server) (ts : List Turn) (fd : ℕ)
        → All IsWithin ts
        → (t : Server) × (serve_all reply s ts ≡ done t)
          × (t.calls ≡ s.calls ++ answers ts)
          × (total (closings fd) t.calls ≡ total (closings fd) s.calls + total (accepts fd) ts)
    unfolding serve_all
    serve_all-answers s [] fd h = (s, refl, sym (append-nil s.calls), omega arith)
    serve_all-answers s (t ∷ ts) fd h =
        let (a, ran, now) = serve-answer s t.accepted t.received t.bytes t.sent h.0 in
        let (b, rans, later, _) = serve_all-answers a ts fd h.1 in
        let calls : b.calls ≡ s.calls ++ answers (t ∷ ts) = rw (later, now, append_assoc) in
        (
          b,
          rw (ran, rans),
          calls,
          rw calls (
              omega (
                arith,
                total-append (closings fd) s.calls (answers (t ∷ ts)),
                answers-closings fd (t ∷ ts),
              )),
        )
