-- ===== src/Demos/WatchRing/Laws.antt =====
-- The two epoll demos compared, by the calls that they make.
use mathlib.Core.List.{append_assoc}
use iowrapper.Base.{
  ℕ, ◌-◌, ◌≡◌, refl, sym, ◌∙◌, ap, Bool, true, List, [], ◌∷◌, ◌++◌, ℤ, is_neg, is_minus, is_le_zero,
  to_nat, Outcome, done, exit, fault, ◌>>=◌, arith, Bool-cases, inl, inr, none,
}
use iowrapper.Uring.{Sqe, Prep, recvmsg, sendmsg, no_flags, enqueue}
use iowrapper.IoOp.{Queue, max_message_len}
use iowrapper.Demos.Watch
use iowrapper.Demos.Watch.{Call, watch, unwatch, shutdown, close, receives, sends, Event}
use iowrapper.Demos.WatchRing.{
  Op, made, submitted, buffer, transfer, on_data, handle, handle_each, handle_all,
}

-- The system call that a request stands for; the demo queues no other requests.
abbrev pub call_of : Sqe ℕ → List Call
call_of e = elim e.prep [
  | recvmsg fd a n ↦ receives fd n ∷ []
  | sendmsg fd a n ↦ sends fd n ∷ []
  | other ↦ []
]

abbrev pub calls_of_queue : Queue → List Call
calls_of_queue [] = []
calls_of_queue (e ∷ es) = call_of e ++ calls_of_queue es

abbrev pub calls_of : List Op → List Call
calls_of [] = []
calls_of (made c ∷ os) = c ∷ calls_of os
calls_of (submitted q ∷ os) = calls_of_queue q ++ calls_of os

calls_of-append : (os ps : List Op) → calls_of (os ++ ps) ≡ calls_of os ++ calls_of ps
calls_of-append [] ps = refl
calls_of-append (made c ∷ os) ps = ap (◌∷◌ c) (calls_of-append os ps)
calls_of-append (submitted q ∷ os) ps =
    ap (λ x. calls_of_queue q ++ x) (calls_of-append os ps)
    ∙ sym (append_assoc (calls_of_queue q) (calls_of os) (calls_of ps))

-- The calls of an outcome.
abbrev pub as_calls : Outcome (List Op) → Outcome (List Call)
as_calls m = m >>= λ ops. done (calls_of ops)

module _ (got : ℕ → Bool) (left sockfd : ℕ) (room : got 0 ≡ true) where
  on_data-calls :
      (ops : List Op) (e : Event)
      → as_calls (on_data got left ops e) ≡ done (Watch.on_data (calls_of ops) e)
  unfolding on_data Watch.on_data transfer enqueue
  on_data-calls ops e =
      let cs = calls_of ops in
      let entry : Prep → Sqe ℕ =
        λ p. record { prep = p; flags = no_flags; buf_group = none; user_data = left } in
      let r = submitted (entry (recvmsg e.fd buffer (max_message_len - 1)) ∷ []) in
      let s = submitted (entry (sendmsg e.fd buffer (to_nat e.received)) ∷ []) in
      let asks = receives e.fd (max_message_len - 1) ∷ [] in
      let answers = sends e.fd (to_nat e.received) ∷ [] in
      let ends = made (unwatch e.fd) ∷ made (shutdown e.fd) ∷ [] in
      elim (Bool-cases (is_le_zero e.received)) [
        | inl z ↦
            rw (room, z)
              (ap done (
                calls_of-append ops (r ∷ ends)
                ∙ sym (append_assoc cs asks (unwatch e.fd ∷ shutdown e.fd ∷ []))))
        | inr z ↦ elim (Bool-cases (is_neg e.sent)) [
          | inl n ↦
              rw (room, z, n)
                (ap done (
                  calls_of-append ops (r ∷ s ∷ made (close e.fd) ∷ [])
                  ∙ sym (
                      append_assoc (cs ++ asks) answers (close e.fd ∷ [])
                      ∙ append_assoc cs asks (answers ++ (close e.fd ∷ [])))))
          | inr n ↦
              rw (room, z, n)
                (ap done (calls_of-append ops (r ∷ s ∷ []) ∙ sym (append_assoc cs asks answers)))
        ]
      ]

  handle-calls :
      (ops : List Op) (e : Event)
      → as_calls (handle got left sockfd ops e) ≡ Watch.handle sockfd (calls_of ops) e
  unfolding handle Watch.handle
  handle-calls ops e = ground (
    arith,
    on_data-calls ops e,
    calls_of-append ops (made (close e.fd) ∷ []),
    calls_of-append ops (made (watch e.accepted) ∷ []),
  )

  handle_each-calls :
      (ops : List Op) (es : List Event)
      → as_calls (handle_each got left sockfd ops es) ≡ Watch.handle_each sockfd (calls_of ops) es
  unfolding handle_each Watch.handle_each
  handle_each-calls ops [] = refl
  handle_each-calls ops (e ∷ es) =
      go (handle got left sockfd ops e) (Watch.handle sockfd (calls_of ops) e) (handle-calls ops e)
        (λ os. handle_each-calls os es)
    where
      go :
          (m : Outcome (List Op)) (n : Outcome (List Call))
          → as_calls m ≡ n
          → ((os : List Op)
              → as_calls (handle_each got left sockfd os es)
                ≡ Watch.handle_each sockfd (calls_of os) es)
          → as_calls (m >>= λ os. handle_each got left sockfd os es)
            ≡ (n >>= λ cs. Watch.handle_each sockfd cs es)
      go (done os) n q ih = ih os ∙ ap (λ x. x >>= λ cs. Watch.handle_each sockfd cs es) q
      go (exit k) n q ih = ap (λ x. x >>= λ cs. Watch.handle_each sockfd cs es) q
      go fault n q ih = ap (λ x. x >>= λ cs. Watch.handle_each sockfd cs es) q

  -- If the empty queue has an entry, a round of the loop makes the same calls in the same order, or
  -- ends with the same status, whether the transfers are system calls or are submitted to the ring.
  pub handle_all-calls :
      (n : ℤ) (ops : List Op) (es : List Event)
      → as_calls (handle_all got left sockfd n ops es) ≡ Watch.handle_all sockfd n (calls_of ops) es
  unfolding handle_all Watch.handle_all
  handle_all-calls n ops es = elim (Bool-cases (is_minus n 1)) [
    | inl z ↦ rw z
    | inr z ↦ rw z (handle_each-calls ops es)
  ]
