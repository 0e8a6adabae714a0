-- ===== src/Startup.antt =====
-- What the `main` functions of io_uring_echo_server_v1.c, _v2.c and _v3.c
-- (netpoll/echo/c-iouring-server) share between the command line and the event loop.
pub mod Laws
pub mod Tests
use iowrapper.Base.{
  ℕ, zero, suc, ◌+◌, Bool, true, false, not, Option, List, [], length, set, ℤ, pos, is_neg, is_zero,
  status, Outcome, done, exit, fault, ◌>>=◌, ◌>>◌, exit_if, ltb, if◌then◌else◌,
}
use iowrapper.Options.{Opt}
use iowrapper.Registry.{FilesEnv}

-- What the operating system and liburing return. A `socket` that fails shows in `bind`, which then
-- fails too.
pub record Env : Type 0 where
  pub options : List Opt
  pub argv1 : Option ℤ
  pub calloc_conns : ℤ → Bool
  pub calloc_bufs : Bool
  pub malloc_buf : ℕ → Bool
  pub socket : ℕ
  pub bind : ℤ
  pub listen : ℤ
  pub queue_init : ℤ
  pub fast_poll : Bool
  pub files : FilesEnv

-- The loop that allocates `bufs[i]`, with `rounds` left at index i. The table itself is not checked.
unfoldable pub alloc_bufs : Env → ℕ → ℕ → Outcome (Unit {0})
alloc_bufs env zero i = done tt
alloc_bufs env (suc rounds) i =
    let rest = alloc_bufs env rounds (i + 1) in
    if env.calloc_bufs then exit_if (not (env.malloc_buf i)) 1 >> rest else fault

-- The socket and the ring.
unfoldable pub open_ring : Env → Outcome (Unit {0})
open_ring env = do
  exit_if (is_neg env.bind) 1
  exit_if (is_neg env.listen) 1
  exit_if (is_neg env.queue_init) 1
  exit_if (not env.fast_poll) 0

-- The two blocks under `if (registerfiles)`: the result of `init_registerfiles` and its table, and
-- then the registration of the listening socket.
unfoldable pub register_listener : (ℕ → ℤ) → Bool → ℤ × List ℤ → ℕ → Outcome (List ℤ)
register_listener update false made fd = done []
register_listener update true (ret, table) fd = do
  exit_if (not (is_zero ret)) (status ret)
  exit_if (is_neg (update fd)) 1
  if ltb fd (length table) then done (set table fd (pos fd)) else fault
