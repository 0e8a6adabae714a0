-- ===== src/Bench.antt =====
-- demo/bench.c: how many requests one ring completes in a given time. The clock and the results of
-- the calls are parameters; the loop runs on fuel, one unit for each pass.
pub mod Laws
mod Tests
use iowrapper.Base.{
  ℕ, zero, suc, ◌+◌, ◌*◌, ◌/◌, ◌%◌, ◌^◌, Bool, true, false, not, Option, none, some, List, [], ◌∷◌,
  ℤ, is_neg, is_minus, is_zero, Outcome, done, fault, exit, ◌>>=◌, ◌>>◌, exit_if, ltb, ◌==◌,
  if◌then◌else◌,
}
use iowrapper.Uring.{Sqe, poll_add, Flags, enqueue}

abbrev pub runtime_ms : ℕ
runtime_ms = 10000

-- `qd`
abbrev pub queue_depth : ℕ
queue_depth = 32

-- EINVAL
abbrev pub einval : ℕ
einval = 22

-- What `gettimeofday` fills in: seconds and microseconds.
unfoldable pub gettimeofday_ms : ℕ × ℕ → ℕ
gettimeofday_ms tv = (tv.0 * 1000 + tv.1 / 1000) % 2 ^ 64

-- x == k, for a result that the code compares with a count.
abbrev pub is_count : ℤ → ℕ → Bool
is_count x k = elim x [ ℤ.pos n ↦ n == k | ℤ.negsuc n ↦ false ]

-- What the calls of one pass return: the waits in order, and the time at its end.
pub record Pass : Type 0 where
  pub submitted : ℤ
  pub written : ℤ
  pub read : ℤ
  pub waited : ℕ → ℤ
  pub time : ℕ × ℕ

-- How a pass ends: at the test of the loop, or in a `return`.
pub data End : Type 0 where
  looped : ℕ → End
  returned : ℕ → ℕ → End

-- The entry of the first inner loop: a poll of the registered file 0.
abbrev pub poll : Sqe ℕ
poll = record {
  prep = poll_add 0 0;
  flags = record { fixed_file = true; buffer_select = false };
  buf_group = none;
  user_data = 1;
}

module _ (got : ℕ → Bool) where
  -- The first inner loop, with k entries to go.
  unfoldable pub queue_polls : ℕ → List (Sqe ℕ) → Outcome (List (Sqe ℕ))
  unfolding enqueue
  queue_polls zero sq = done sq
  queue_polls (suc k) sq = do sq' ← enqueue got sq poll; queue_polls k sq'

-- The second inner loop, with k waits to go, which a failed one breaks.
unfoldable pub reap : (ℕ → ℤ) → ℕ → ℕ → ℕ → ℕ
reap waited zero i nr_reqs = nr_reqs
reap waited (suc k) i nr_reqs =
    let rest = reap waited k (i + 1) ((nr_reqs + 1) % 2 ^ 64) in
    if is_neg (waited i) then nr_reqs else rest

module _ (got : ℕ → Bool) where
  -- One pass. `io_uring_submit` leaves the queue empty where it returns what was queued.
  unfoldable pub pass : Pass → ℕ → Outcome End
  unfolding queue_polls reap
  pass p nr_reqs = queue_polls got queue_depth [] >>= λ sq.
      if not (is_count p.submitted queue_depth)
      then done (returned 1 nr_reqs)
      else if not (is_count p.written 1)
      then done (returned 1 nr_reqs)
      else if not (is_count p.read 1)
      then done (returned 1 nr_reqs)
      else done (looped (reap p.waited queue_depth 0 nr_reqs))

  -- The do-while loop from pass i on: what it returns, with the count. `none` is out of fuel.
  unfoldable pub loop : (ℕ → Pass) → ℕ → ℕ → ℕ → ℕ → Option (Outcome (ℕ × ℕ))
  unfolding pass gettimeofday_ms
  loop passes tstop zero i nr_reqs = none
  loop passes tstop (suc fuel) i nr_reqs = elim (pass (passes i) nr_reqs) [
    | done (looped n) ↦ elim (ltb (gettimeofday_ms (passes i).time) tstop) [
      | true ↦ loop passes tstop fuel (i + 1) n
      | false ↦ some (done (0, n))
    ]
    | done (returned ret n) ↦ some (done (ret, n))
    | exit code ↦ some (exit code)
    | fault ↦ some fault
  ]

-- What the calls before the loop return, and the time behind them.
pub record Env : Type 0 where
  pub queue_init : ℤ
  pub queue_init_again : ℤ
  pub register_ring_fd : ℤ
  pub pipe : ℤ
  pub register_files : ℤ
  pub start : ℕ × ℕ
  pub passes : ℕ → Pass

module _ (got : ℕ → Bool) where
  -- What `bench_do` returns, with the count that it leaves.
  unfoldable pub bench_do : Env → ℕ → ℕ → Option (Outcome (ℕ × ℕ))
  unfolding loop gettimeofday_ms
  bench_do env fuel nr_reqs =
      if not (is_zero env.pipe)
      then some (done (1, nr_reqs))
      else if is_neg env.register_files
      then some (done (1, nr_reqs))
      else loop got env.passes ((gettimeofday_ms env.start + runtime_ms) % 2 ^ 64) fuel 0 nr_reqs

  -- The result of the first initialisation that does not fail with EINVAL.
  unfoldable pub init_result : Env → ℤ
  init_result env = if is_minus env.queue_init einval then env.queue_init_again else env.queue_init

  -- `main`: the status of the process, or the requests for each second that it prints.
  unfoldable pub run : Env → ℕ → Option (Outcome ℕ)
  unfolding bench_do init_result
  run env fuel =
      let measured = bench_do env fuel 0 in
      if not (is_zero (init_result env))
      then some (exit 1)
      else if is_neg env.register_ring_fd
      then some (exit 1)
      else elim measured [
        | none ↦ none
        | some m ↦
            some (m >>= λ r. if r.0 == 1 then exit 1 else done (r.1 * 1000 % 2 ^ 64 / runtime_ms))
      ]
