-- ===== src/Bench/Tests.antt =====
-- The benchmark on a concrete clock, and its theorems at concrete inputs.
use iowrapper.Base.{
  ℕ, zero, suc, ◌+◌, ◌*◌, ◌%◌, ◌^◌, ◌≤◌, ◌<◌, ◌≡◌, refl, Bool, true, some, pos, negsuc, done, arith,
}
use iowrapper.Bench.{Env, bench_do, run, queue_depth, gettimeofday_ms, init_result, loop}
use iowrapper.Bench.Laws.{deadline, bench_do-ends, bench_do-counts}

abbrev plenty : ℕ → Bool
plenty n = true

-- Every call succeeds, and a pass takes six seconds.
abbrev slow : Env
slow = record {
  queue_init = negsuc 21;
  queue_init_again = pos 0;
  register_ring_fd = pos 1;
  pipe = pos 0;
  register_files = pos 0;
  start = (100, 500);
  passes = λ i. record {
    submitted = pos 32;
    written = pos 1;
    read = pos 1;
    waited = λ j. pos 0;
    time = (106 + 6 * i, 500);
  };
}

deadline_passed : deadline slow ≤ gettimeofday_ms (slow.passes 1).time
unfolding gettimeofday_ms
deadline_passed = omega arith

before_deadline : (k : ℕ) → k < 1 → gettimeofday_ms (slow.passes k).time < deadline slow
unfolding gettimeofday_ms
before_deadline zero h = omega arith
before_deadline (suc k) h = absurd (omega arith)

bench_do-ends_example :
    (ret nr : ℕ) × (bench_do plenty slow 5 0 ≡ some (done (ret, nr)))
    × (ret ≤ 1)
    × (nr ≤ queue_depth * (1 + 1))
bench_do-ends_example = bench_do-ends plenty (λ n h. refl) slow 1 5 deadline_passed (omega arith)

bench_do-counts_example : bench_do plenty slow 5 0 ≡ some (done (0, queue_depth * (1 + 1) % 2 ^ 64))
bench_do-counts_example =
    bench_do-counts plenty (λ n h. refl) slow 1 5 refl refl (λ k l. (refl, refl, refl, λ i h. refl))
      before_deadline deadline_passed (omega arith)

-- 64 requests in ten seconds.
printed : run plenty slow 5 ≡ some (done 6)
unfolding run bench_do init_result loop
printed = refl
