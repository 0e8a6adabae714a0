-- ===== src/Bench/Laws.antt =====
-- How the benchmark ends, and what it has counted by then.
use mathlib.Core.Logic.{◌⊎◌, inl, inr}
use iowrapper.Base.{
  ℕ, zero, suc, ◌+◌, ◌*◌, ◌%◌, ◌^◌, ◌≤◌, ◌<◌, ◌≡◌, refl, sym, subst, Bool, true, false, some, List,
  [], ◌∷◌, ◌++◌, length, length-append, ℤ, pos, is_neg, is_zero, done, ltb, arith, Bool-cases,
  lt→ltb, ap, ◌∙◌,
}
use iowrapper.Uring.{Sqe, enqueue, HasEntries}
use iowrapper.Bench.{
  poll, Pass, looped, returned, Env, runtime_ms, queue_depth, gettimeofday_ms, is_count,
  queue_polls, reap, pass, loop, bench_do,
}

abbrev pub deadline : Env → ℕ
deadline env = (gettimeofday_ms env.start + runtime_ms) % 2 ^ 64

next_index : (i n : ℕ) → i + suc n ≡ i + 1 + n
next_index i n = omega arith

first_index : (i : ℕ) → i + 0 ≡ i
first_index i = omega arith

from_zero : (n : ℕ) → n ≡ 0 + n
from_zero n = omega arith

module _ (got : ℕ → Bool) (room : HasEntries got queue_depth) where
  queue_polls-done :
      (k : ℕ) (sq : List (Sqe ℕ))
      → length sq + k ≤ queue_depth
      → (q : List (Sqe ℕ)) × (queue_polls got k sq ≡ done q)
  unfolding queue_polls enqueue
  queue_polls-done zero sq h = (sq, refl)
  queue_polls-done (suc k) sq h =
      let (q, e) = queue_polls-done k (sq ++ (poll ∷ [])) (rw length-append (omega arith)) in
      (q, rw (room (length sq) (omega arith), e))

  reap-bound : (waited : ℕ → ℤ) (k i n : ℕ) → reap waited k i n ≤ n + k
  unfolding reap
  reap-bound waited zero i n = omega arith
  reap-bound waited (suc k) i n = ground (arith, reap-bound waited k (i + 1) ((n + 1) % 2 ^ 64))

  -- A pass comes to the test of the loop, or to `return 1`.
  pass-end :
      (p : Pass) (n : ℕ)
      → ((m : ℕ) × (pass got p n ≡ done (looped m)) × (m ≤ n + queue_depth))
        ⊎ (pass got p n ≡ done (returned 1 n))
  unfolding pass
  pass-end p n =
      let (q, e) = queue_polls-done queue_depth [] (omega arith) in
      elim (Bool-cases (is_count p.submitted queue_depth)) [
        | inr a ↦ inr (rw (e, a))
        | inl a ↦ elim (Bool-cases (is_count p.written 1)) [
          | inr b ↦ inr (rw (e, a, b))
          | inl b ↦ elim (Bool-cases (is_count p.read 1)) [
            | inr c ↦ inr (rw (e, a, b, c))
            | inl c ↦ inl (
              reap p.waited queue_depth 0 n,
              rw (e, a, b, c),
              reap-bound p.waited queue_depth 0 n,
            )
          ]
        ]
      ]

  loop-ends :
      (passes : ℕ → Pass) (tstop n fuel i nr_reqs : ℕ)
      → n < fuel
      → tstop ≤ gettimeofday_ms (passes (i + n)).time
      → (ret nr : ℕ) × (loop got passes tstop fuel i nr_reqs ≡ some (done (ret, nr)))
        × (ret ≤ 1)
        × (nr ≤ nr_reqs + queue_depth * (n + 1))
  unfolding loop
  loop-ends passes tstop n zero i nr_reqs h late = elim h [ ]
  loop-ends passes tstop zero (suc fuel) i nr_reqs h late = elim (pass-end (passes i) nr_reqs) [
    | inr e ↦ (1, nr_reqs, rw (e, loop), omega arith, omega arith)
    | inl (m, e, bound) ↦
        let over : ltb (gettimeofday_ms (passes i).time) tstop ≡ false = ground arith in
        (0, m, rw (e, loop, over), omega arith, omega arith)
  ]
  loop-ends passes tstop (suc n) (suc fuel) i nr_reqs h late = elim (pass-end (passes i) nr_reqs) [
    | inr e ↦ (1, nr_reqs, rw (e, loop), omega arith, omega arith)
    | inl (m, e, bound) ↦ elim (Bool-cases (ltb (gettimeofday_ms (passes i).time) tstop)) [
      | inr over ↦ (0, m, rw (e, loop, over), omega arith, omega arith)
      | inl before ↦
          let (ret, nr, g, b, c) =
            loop-ends passes tstop n fuel (i + 1) m (omega arith)
              (subst (λ k. tstop ≤ gettimeofday_ms (passes k).time) (next_index i n) late) in
          (ret, nr, rw (e, loop, before, g), b, omega arith)
    ]
  ]

  -- Every call of a pass succeeds.
  abbrev pub IsGood : Pass → Type 0
  IsGood p =
      (p.submitted ≡ pos queue_depth)
      × (p.written ≡ pos 1)
      × (p.read ≡ pos 1)
      × ((i : ℕ) → i < queue_depth → is_neg (p.waited i) ≡ false)

  reap-all :
      (waited : ℕ → ℤ) (k i n : ℕ)
      → ((j : ℕ) → j < i + k → is_neg (waited j) ≡ false)
      → n < 2 ^ 64
      → reap waited k i n ≡ (n + k) % 2 ^ 64
  unfolding reap
  reap-all waited zero i n h b = omega arith
  reap-all waited (suc k) i n h b = rw (h i (omega arith)) (
      omega (
        arith,
        reap-all waited k (i + 1) ((n + 1) % 2 ^ 64) (λ j l. h j (omega arith)) (omega arith),
      ))

  pass-good :
      (p : Pass) (n : ℕ)
      → IsGood p
      → n < 2 ^ 64
      → pass got p n ≡ done (looped ((n + queue_depth) % 2 ^ 64))
  unfolding pass
  pass-good p n (a, b, c, w) h =
      let (q, e) = queue_polls-done queue_depth [] (omega arith) in
      rw (e, a, b, c) (ap (λ k. done (looped k)) (reap-all p.waited queue_depth 0 n w h))

  loop-counts :
      (passes : ℕ → Pass) (tstop n fuel i nr_reqs : ℕ)
      → n < fuel
      → nr_reqs < 2 ^ 64
      → ((k : ℕ) → k ≤ n → IsGood (passes (i + k)))
      → ((k : ℕ) → k < n → gettimeofday_ms (passes (i + k)).time < tstop)
      → tstop ≤ gettimeofday_ms (passes (i + n)).time
      → loop got passes tstop fuel i nr_reqs
        ≡ some (done (0, (nr_reqs + queue_depth * (n + 1)) % 2 ^ 64))
  unfolding loop
  loop-counts passes tstop n zero i nr_reqs h b good early late = elim h [ ]
  loop-counts passes tstop zero (suc fuel) i nr_reqs h b good early late =
      let over : ltb (gettimeofday_ms (passes i).time) tstop ≡ false = ground arith in
      rw
        (
          pass-good (passes i) nr_reqs
              (subst (λ j. IsGood (passes j)) (first_index i) (good 0 (omega arith))) b,
          loop,
          over,
        )
        refl
  loop-counts passes tstop (suc n) (suc fuel) i nr_reqs h b good early late =
      let before : ltb (gettimeofday_ms (passes i).time) tstop ≡ true =
        lt→ltb (gettimeofday_ms (passes i).time) tstop (
          subst (λ j. gettimeofday_ms (passes j).time < tstop) (first_index i)
            (early 0 (omega arith))) in
      rw
        (
          pass-good (passes i) nr_reqs
              (subst (λ j. IsGood (passes j)) (first_index i) (good 0 (omega arith))) b,
          loop,
          before,
        )
        (loop-counts passes tstop n fuel (i + 1) ((nr_reqs + queue_depth) % 2 ^ 64) (omega arith)
            (omega arith)
            (λ k l. subst (λ j. IsGood (passes j)) (next_index i k) (good (suc k) (omega arith)))
            (λ k l.
              subst (λ j. gettimeofday_ms (passes j).time < tstop) (next_index i k)
                (early (suc k) (omega arith)))
            (subst (λ j. tstop ≤ gettimeofday_ms (passes j).time) (next_index i n) late)
          ∙ ap (λ k. some (done (0, k))) (omega arith))

  -- Where the clock reaches the deadline at the end of some pass, fuel for one more pass than its
  -- index is enough for bench_do to return, whatever the calls return: it returns 0 or 1, and has
  -- counted at most 32 requests for each pass up to that one.
  pub bench_do-ends :
      (env : Env) (n fuel : ℕ)
      → deadline env ≤ gettimeofday_ms (env.passes n).time
      → n < fuel
      → (ret nr : ℕ) × (bench_do got env fuel 0 ≡ some (done (ret, nr)))
        × (ret ≤ 1)
        × (nr ≤ queue_depth * (n + 1))
  unfolding bench_do
  bench_do-ends env n fuel late h =
      let (ret, nr, e, b, c) =
        loop-ends env.passes (deadline env) n fuel 0 0 h
          (subst (λ j. deadline env ≤ gettimeofday_ms (env.passes j).time) (from_zero n) late) in
      elim (Bool-cases (is_zero env.pipe)) [
        | inr p ↦ (1, 0, rw p, omega arith, omega arith)
        | inl p ↦ elim (Bool-cases (is_neg env.register_files)) [
          | inl r ↦ (1, 0, rw (p, r), omega arith, omega arith)
          | inr r ↦ (ret, nr, rw (p, r, e), b, omega arith)
        ]
      ]

  -- If every call succeeds, bench_do returns 0, and has counted 32 requests, modulo 2 ^ 64, for each
  -- pass up to the first that the clock ends at or behind the deadline.
  pub bench_do-counts :
      (env : Env) (n fuel : ℕ)
      → env.pipe ≡ pos 0
      → is_neg env.register_files ≡ false
      → ((k : ℕ) → k ≤ n → IsGood (env.passes k))
      → ((k : ℕ) → k < n → gettimeofday_ms (env.passes k).time < deadline env)
      → deadline env ≤ gettimeofday_ms (env.passes n).time
      → n < fuel
      → bench_do got env fuel 0 ≡ some (done (0, queue_depth * (n + 1) % 2 ^ 64))
  unfolding bench_do
  bench_do-counts env n fuel p r good early late h =
      rw (p, r)
        (loop-counts env.passes (deadline env) n fuel 0 0 h (omega arith)
            (λ k l. subst (λ j. IsGood (env.passes j)) (from_zero k) (good k l))
            (λ k l.
              subst (λ j. gettimeofday_ms (env.passes j).time < deadline env) (from_zero k)
                (early k l))
            (subst (λ j. deadline env ≤ gettimeofday_ms (env.passes j).time) (from_zero n) late)
          ∙ ap (λ k. some (done (0, k % 2 ^ 64))) (sym (from_zero (queue_depth * (n + 1)))))
