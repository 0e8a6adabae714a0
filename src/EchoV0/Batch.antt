-- ===== src/EchoV0/Batch.antt =====
-- A whole batch of completions: `io_uring_for_each_cqe` and `io_uring_cq_advance`.
use mathlib.Core.List.{append_assoc, append-nil, map-append}
use native.Mathlib.Nat.{zero-add}
use iowrapper.Base.{
  ℕ, ◌+◌, ◌*◌, ◌≤◌, ◌≡◌, refl, ap, ◌∙◌, Bool, Option, none, some, List, [], ◌∷◌, ◌++◌, map, length,
  length-append, length-map, Outcome, done, exit, ◌>>=◌, arith,
}
use iowrapper.Uring.{Cqe, Call, HasEntries}
use iowrapper.ConnInfo.{of_user_data}
use iowrapper.EchoV0.{Server, handle_all}
use iowrapper.EchoV0.Requests.{Request, entry, answer, extend, handle-answer, answer-length}

abbrev pub Answer : Type 0
Answer = List Request × List Call

-- One answer, then another; an exit ends both.
abbrev pub prepend : Answer → Option Answer → Option Answer
prepend a none = none
prepend (rs, cs) (some (rs', cs')) = some (rs ++ rs', cs ++ cs')

abbrev pub combine : Option Answer → Option Answer → Option Answer
combine none o = none
combine (some a) o = prepend a o

-- The answers to a batch, one after the other, or none where one of them is an exit.
unfoldable pub answers : List (Cqe ℕ) → Option Answer
answers [] = some ([], [])
answers (c ∷ cs) = combine (answer (of_user_data c.user_data) c.res c.flags) (answers cs)

abbrev pub batch_outcome : ℕ → Server → ℕ → Option (List Request × List Call) → Outcome (Server × ℕ)
batch_outcome l s n none = exit 1
batch_outcome l s n (some a) = done (extend l s a, n)

extend-extend :
    (l : ℕ) (s : Server) (rs rs' : List Request) (cs cs' : List Call)
    → extend l (extend l s (rs, cs)) (rs', cs') ≡ extend l s (rs ++ rs', cs ++ cs')
extend-extend l s rs rs' cs cs' = simp (map-append, append_assoc)

batch_rest :
    (l n : ℕ) (s : Server) (a : Answer) (o : Option Answer)
    → batch_outcome l (extend l s a) n o ≡ batch_outcome l s n (prepend a o)
batch_rest l n s a none = refl
batch_rest l n s (rs, cs) (some (rs', cs')) =
    ap (λ t. done (t, n)) (extend-extend l s rs rs' cs cs')

module _ (got : ℕ → Bool) (l k : ℕ) (room : HasEntries got k) where
  handle_all-from :
      (cs : List (Cqe ℕ)) (s : Server) (n : ℕ)
      → length s.sq + 2 * length cs ≤ k
      → handle_all got l s n cs ≡ batch_outcome l s (n + length cs) (answers cs)
  unfolding handle_all answers
  handle_all-from [] s n h = ground (arith, append-nil s.sq, append-nil s.calls)
  handle_all-from (c ∷ cs) s n h =
      go (answer (of_user_data c.user_data) c.res c.flags) refl (λ t m. handle_all-from cs t m)
    where
      go :
          (o : Option Answer)
          → answer (of_user_data c.user_data) c.res c.flags ≡ o
          → ((t : Server) (m : ℕ)
              → length t.sq + 2 * length cs ≤ k
              → handle_all got l t m cs ≡ batch_outcome l t (m + length cs) (answers cs))
          → handle_all got l s n (c ∷ cs)
            ≡ batch_outcome l s
                (n + length (c ∷ cs))
                (combine (answer (of_user_data c.user_data) c.res c.flags) (answers cs))
      go none e ih = rw (handle-answer got l k s c room (omega arith), e, ◌>>=◌)
      go (some a) e ih =
          rw (handle-answer got l k s c room (omega arith), e, ◌>>=◌)
            (ih (extend l s a) (n + 1) (
                omega (
                  arith,
                  answer-length (of_user_data c.user_data) c.res c.flags e,
                  length-append s.sq (map (entry l) a.0),
                  length-map a.0 (entry l),
                ))
              ∙ batch_rest l (n + 1 + length cs) s a (answers cs)
              ∙ ap (λ m. batch_outcome l s m (prepend a (answers cs))) (omega arith))

  -- A submission queue with two entries for each completion is enough: no entry is missing, and
  -- the batch is answered completion by completion, in order, every one of them counted, unless one
  -- of them makes the server exit with status 1.
  pub handle_all-answers :
      (s : Server) (cs : List (Cqe ℕ))
      → length s.sq + 2 * length cs ≤ k
      → handle_all got l s 0 cs ≡ batch_outcome l s (length cs) (answers cs)
  handle_all-answers s cs h = rw zero-add at (handle_all-from cs s 0 h)
