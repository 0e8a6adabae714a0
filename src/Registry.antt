-- ===== src/Registry.antt =====
-- The table of registered files of io_uring_echo_server_v1.c, _v2.c and _v3.c
-- (netpoll/echo/c-iouring-server): `init_registerfiles`, and what the accept branch does with it.
pub mod Laws
mod Tests
use iowrapper.Base.{
  ℕ, zero, suc, ◌+◌, Bool, true, false, not, Option, none, some, List, [], ◌∷◌, get_elem?, set,
  replicate, ℤ, pos, negsuc, is_neg, is_minus, Outcome, done, exit, fault, ltb, if◌then◌else◌,
}

-- `for (i = 0; i < n; i++) files[i] = -1;`, with `rounds` left at index i.
unfoldable pub fill_minus : ℕ → ℕ → List ℤ → List ℤ
fill_minus zero i files = files
fill_minus (suc rounds) i files = fill_minus rounds (i + 1) (set files i (negsuc 0))

-- What the operating system and liburing return to `init_registerfiles`.
pub record FilesEnv : Type 0 where
  pub getrlimit : ℤ
  pub rlim_max : ℕ
  pub calloc_files : Bool
  pub calloc_registered : Bool
  pub register_files : ℤ

-- The part that all versions share: two tables of `n` entries, both filled with -1.
unfoldable pub init_tables : FilesEnv → ℕ → ℤ × List ℤ
init_tables env n =
    if not env.calloc_files
    then (pos 1, [])
    else if not env.calloc_registered
    then (pos 1, [])
    else if is_neg env.register_files
    then (env.register_files, fill_minus n 0 (replicate n (pos 0)))
    else (pos 0, fill_minus n 0 (replicate n (pos 0)))

-- Versions 1 and 2: as many as the process may open, and at most 32768.
unfoldable pub init_registerfiles : FilesEnv → ℤ × List ℤ
init_registerfiles env =
    if is_neg env.getrlimit
    then (env.getrlimit, [])
    else init_tables env (if ltb 32768 env.rlim_max then 32768 else env.rlim_max)

-- `if (registerfiles && registered_files[fd] == -1)` and its body: the file is registered, the
-- process exits if that fails, and the table notes it. An index outside the table is a fault.
unfoldable pub register_fd : (ℕ → ℤ) → Bool → List ℤ → ℤ → Outcome (List ℤ)
register_fd update false table fd = done table
register_fd update true table (negsuc n) = fault
register_fd update true table (pos fd) = elim (get_elem? table fd) [
  | none ↦ fault
  | some v ↦
      if is_minus v 1
      then if is_neg (update fd) then exit 1 else done (set table fd (pos fd))
      else done table
]
