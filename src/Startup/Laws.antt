-- ===== src/Startup/Laws.antt =====
-- The table of registered files when the event loop begins.
use iowrapper.Base.{
  ℕ, ◌<◌, ◌≡◌, sym, subst, true, false, some, List, length, get_elem?, get_elem?-set_self, set, ℤ,
  pos, is_neg, done, arith,
}
use iowrapper.Registry.Laws.{IsTable, set-IsTable}
use iowrapper.Startup.{register_listener}

-- Past the registration of the listening socket, nothing before it failed, and the table that
-- `init_registerfiles` made notes the socket.
pub register_listener_lem :
    (update : ℕ → ℤ) (made : ℤ × List ℤ) (t : List ℤ) (fd : ℕ)
    → (made.0 ≡ pos 0 → IsTable made.1)
    → register_listener update true made fd ≡ done t
    → (made.0 ≡ pos 0) × (is_neg (update fd) ≡ false) × IsTable t × (get_elem? t fd ≡ some (pos fd))
unfolding register_listener
register_listener_lem update (ret, table) t fd v h =
    let z : ret ≡ pos 0 = ground arith in
    let b : fd < length table = ground arith in
    let e : t ≡ set table fd (pos fd) = ground arith in
    (
      z,
      ground arith,
      subst IsTable (sym e) (set-IsTable table fd b (v z)),
      rw e (get_elem?-set_self table fd (pos fd) b),
    )
