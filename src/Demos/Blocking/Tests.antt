-- ===== src/Demos/Blocking/Tests.antt =====
-- The theorem on the blocking demos at a concrete run.
use iowrapper.Base.{
  ℕ, ◌+◌, ◌≡◌, refl, List, [], ◌∷◌, ◌++◌, ℤ, pos, negsuc, done, fault, All, arith, total,
}
use iowrapper.Demos.Blocking.{
  Server, Turn, receives, sends, closes, echoed, greeting, serve, serve_all,
}
use iowrapper.Demos.Blocking.Laws.{IsWithin, closings, accepts, answers, serve_all-answers}

abbrev begin : Server
begin = record { buffer = λ i. 255; calls = [] }

abbrev turn : ℤ → ℤ → ℕ → Turn
turn accepted received byte = record {
  accepted = accepted;
  received = received;
  bytes = λ i. byte + i;
  sent = pos 0;
}

-- Two clients on the same descriptor, an accept that fails and a receive that fails between them.
abbrev turns : List Turn
turns =
    turn (pos 4) (pos 3) 65
    ∷ turn (negsuc 23) (pos 0) 0
    ∷ turn (pos 5) (negsuc 103) 0
    ∷ turn (pos 4) (pos 1) 97
    ∷ []

within : All IsWithin turns
within = (omega arith, (omega arith, (omega arith, (omega arith, tt))))

serve_all-answers_example :
    (t : Server) × (serve_all echoed begin turns ≡ done t)
    × (t.calls ≡ [] ++ answers echoed turns)
    × (total (closings 4) t.calls ≡ total (closings 4) [] + total (accepts 4) turns)
serve_all-answers_example = serve_all-answers echoed (λ f g n e. e) begin turns 4 within

answers_echo :
    answers echoed turns
    ≡ receives 4 1023
      ∷ sends 4 (65 ∷ 66 ∷ 67 ∷ [])
      ∷ closes 4
      ∷ receives 5 1023
      ∷ closes 5
      ∷ receives 4 1023
      ∷ sends 4 (97 ∷ [])
      ∷ closes 4
      ∷ []
answers_echo = refl

-- More bytes than the receive asked for would put the terminator outside the buffer.
beyond_buffer : serve greeting begin (turn (pos 4) (pos 1024) 65) ≡ fault
unfolding serve
beyond_buffer = refl
