-- ===== src/Registry/Laws.antt =====
-- The table after its creation and after each registration.
use mathlib.Core.List.{append_assoc}
use native.Mathlib.Decide.{ℕ_discrete}
use iowrapper.Base.{
  ℕ, zero, suc, ◌+◌, ◌≤◌, ◌<◌, ◌≡◌, refl, sym, subst, ap, ◌∙◌, ◌⊎◌, inl, inr, true, false, Option,
  none, some, List, [], ◌∷◌, ◌++◌, length, length-replicate, length-append, get_elem?, set,
  replicate, ℤ, pos, negsuc, is_neg, is_minus, done, ltb, if◌then◌else◌, arith, get_elem?-set_self,
  get_elem?-set_ne,
}
use iowrapper.Registry.{FilesEnv, fill_minus, init_tables, init_registerfiles, register_fd}

set-append : (xs ys : List ℤ) (y v : ℤ) → set (xs ++ (y ∷ ys)) (length xs) v ≡ xs ++ (v ∷ ys)
set-append [] ys y v = refl
set-append (x ∷ xs) ys y v = ap (◌∷◌ x) (set-append xs ys y v)

fill_minus-append :
    (ys xs : List ℤ) (i : ℕ)
    → i ≡ length xs
    → fill_minus (length ys) i (xs ++ ys) ≡ xs ++ replicate (length ys) (negsuc 0)
unfolding fill_minus
fill_minus-append [] xs i e = refl
fill_minus-append (y ∷ ys) xs i e =
    let v = negsuc 0 in
    ap (fill_minus (length ys) (i + 1)) (
      ap (λ j. set (xs ++ (y ∷ ys)) j v) e
      ∙ set-append xs ys y v
      ∙ sym (append_assoc xs (v ∷ []) ys))
    ∙ fill_minus-append ys (xs ++ (v ∷ [])) (i + 1) (omega (arith, length-append xs (v ∷ [])))
    ∙ append_assoc xs (v ∷ []) (replicate (length ys) v)

fill_minus-replicate : (n : ℕ) → fill_minus n 0 (replicate n (pos 0)) ≡ replicate n (negsuc 0)
fill_minus-replicate n =
    let h = fill_minus-append (replicate n (pos 0)) [] 0 refl in rw length-replicate at h

-- Where `init_registerfiles` returns 0, the table has at most 32768 entries and no more than the
-- process may open, and every entry says that the file is not registered.
pub init_registerfiles_table :
    (env : FilesEnv) (table : List ℤ)
    → init_registerfiles env ≡ (pos 0, table)
    → (n : ℕ) × (n ≤ 32768) × (n ≤ env.rlim_max) × (table ≡ replicate n (negsuc 0))
unfolding init_registerfiles init_tables
init_registerfiles_table env table h = (
  (if ltb 32768 env.rlim_max then 32768 else env.rlim_max),
  ground arith,
  ground arith,
  ground (arith, fill_minus-replicate 32768, fill_minus-replicate env.rlim_max),
)

-- Each entry of the table says of its own file that it is registered, or that it is not.
abbrev pub IsTable : List ℤ → Type 0
IsTable table = (i : ℕ) (v : ℤ) → get_elem? table i ≡ some v → (v ≡ negsuc 0) ⊎ (v ≡ pos i)

register_cases :
    (update : ℕ → ℤ) (table t : List ℤ) (fd : ℕ)
    → register_fd update true table (pos fd) ≡ done t
    → (v : ℤ) × (get_elem? table fd ≡ some v)
      × (((is_minus v 1 ≡ false) × (t ≡ table))
          ⊎ ((is_minus v 1 ≡ true) × (is_neg (update fd) ≡ false) × (t ≡ set table fd (pos fd))))
unfolding register_fd
register_cases update table t fd h = go (get_elem? table fd) refl
  where
    go :
        (o : Option ℤ)
        → get_elem? table fd ≡ o
        → (v : ℤ) × (get_elem? table fd ≡ some v)
          × (((is_minus v 1 ≡ false) × (t ≡ table))
              ⊎ ((is_minus v 1 ≡ true)
                  × (is_neg (update fd) ≡ false)
                  × (t ≡ set table fd (pos fd))))
    go none e = absurd (ground arith)
    go (some v) e = (v, e, ground arith)

get_elem?-bound : (xs : List ℤ) (i : ℕ) (v : ℤ) → get_elem? xs i ≡ some v → i < length xs
get_elem?-bound [] i v h = absurd (ground arith)
get_elem?-bound (x ∷ xs) zero v h = omega arith
get_elem?-bound (x ∷ xs) (suc i) v h = omega (arith, get_elem?-bound xs i v h)

pub set-IsTable :
    (table : List ℤ) (fd : ℕ) → fd < length table → IsTable table → IsTable (set table fd (pos fd))
set-IsTable table fd b h i v e = elim (ℕ_discrete fd i) [
  | yes p ↦ inr (ground (arith, get_elem?-set_self table fd (pos fd) b))
  | no p ↦ h i v (sym (get_elem?-set_ne table fd i (pos fd) p) ∙ e)
]

-- When the accept branch is past the registration of a descriptor, the table notes the descriptor and
-- every entry is still its own index or -1. If the descriptor was noted before, then the table is as it
-- was, and the branch comes to the same with any other results of io_uring_register_files_update: it
-- does not call it. Otherwise it was not noted, and the call succeeded.
pub register_fd-IsTable :
    (update other : ℕ → ℤ) (table t : List ℤ) (fd : ℕ)
    → IsTable table
    → register_fd update true table (pos fd) ≡ done t
    → IsTable t
      × (get_elem? t fd ≡ some (pos fd))
      × (((t ≡ table) × (register_fd other true table (pos fd) ≡ done table))
          ⊎ ((get_elem? table fd ≡ some (negsuc 0)) × (is_neg (update fd) ≡ false)))
unfolding register_fd
register_fd-IsTable update other table t fd h e =
    let (v, at, c) = register_cases update table t fd e in
    elim c [
      | inl (m, s) ↦
          let p : v ≡ pos fd = ground (arith, h fd v at) in
          (rw s h, rw s (at ∙ ap some p), inl (s, rw (at, register_fd, m)))
      | inr (m, u, s) ↦
          let n : v ≡ negsuc 0 = ground (arith, h fd v at) in
          let b = get_elem?-bound table fd v at in
          (
            rw s (set-IsTable table fd b h),
            rw s (get_elem?-set_self table fd (pos fd) b),
            inr (at ∙ ap some n, u),
          )
    ]

replicate-minus : (n i : ℕ) (v : ℤ) → get_elem? (replicate n (negsuc 0)) i ≡ some v → v ≡ negsuc 0
replicate-minus zero i v h = absurd (cc h)
replicate-minus (suc n) zero v h = cc h
replicate-minus (suc n) (suc i) v h = replicate-minus n i v h

replicate-IsTable : (n : ℕ) → IsTable (replicate n (negsuc 0))
replicate-IsTable n i v h = inl (replicate-minus n i v h)

pub init_registerfiles-IsTable :
    (env : FilesEnv) → (init_registerfiles env).0 ≡ pos 0 → IsTable (init_registerfiles env).1
init_registerfiles-IsTable env z =
    let made = init_registerfiles env in
    let (n, _, _, e) = init_registerfiles_table env made.1 (ap (λ r. (r, made.1)) z) in
    subst IsTable (sym e) (replicate-IsTable n)

-- The same of version 3, whose `init_registerfiles` is the part that all share.
pub init_tables-IsTable :
    (env : FilesEnv) (n : ℕ) → (init_tables env n).0 ≡ pos 0 → IsTable (init_tables env n).1
unfolding init_tables
init_tables-IsTable env n z =
    let e : (init_tables env n).1 ≡ replicate n (negsuc 0) =
      ground (arith, fill_minus-replicate n) in
    subst IsTable (sym e) (replicate-IsTable n)
