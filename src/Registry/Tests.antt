-- ===== src/Registry/Tests.antt =====
-- The theorems at tables of four entries.
use iowrapper.Base.{
  is_neg, false, ℕ, ◌≤◌, ◌≡◌, ◌⊎◌, refl, true, some, List, [], ◌∷◌, get_elem?, replicate, ℤ, pos,
  negsuc, done,
}
use iowrapper.Registry.{FilesEnv, fill_minus, init_tables, init_registerfiles, register_fd}
use iowrapper.Registry.Laws.{
  IsTable, init_registerfiles_table, init_registerfiles-IsTable, register_fd-IsTable,
}

abbrev four : FilesEnv
four = record {
  getrlimit = pos 0;
  rlim_max = 4;
  calloc_files = true;
  calloc_registered = true;
  register_files = pos 0;
}

abbrev empty : List ℤ
empty = negsuc 0 ∷ negsuc 0 ∷ negsuc 0 ∷ negsuc 0 ∷ []

empty_lem : init_registerfiles four ≡ (pos 0, empty)
unfolding init_registerfiles init_tables fill_minus
empty_lem = refl

empty-IsTable : IsTable empty
unfolding init_registerfiles init_tables fill_minus
empty-IsTable = init_registerfiles-IsTable four refl

init_registerfiles_table_example :
    (n : ℕ) × (n ≤ 32768) × (n ≤ 4) × (empty ≡ replicate n (negsuc 0))
init_registerfiles_table_example = init_registerfiles_table four empty empty_lem

abbrev third : List ℤ
third = negsuc 0 ∷ negsuc 0 ∷ pos 2 ∷ negsuc 0 ∷ []

third_lem : register_fd (λ fd. pos 1) true empty (pos 2) ≡ done third
unfolding register_fd
third_lem = refl

third-IsTable : IsTable third
third-IsTable =
    (register_fd-IsTable (λ fd. pos 1) (λ fd. pos 1) empty third 2 empty-IsTable third_lem).0

-- A descriptor that is noted is not registered again.
again_lem : register_fd (λ fd. pos 1) true third (pos 2) ≡ done third
unfolding register_fd
again_lem = refl

register_fd-IsTable_example :
    IsTable third
    × (get_elem? third 2 ≡ some (pos 2))
    × (((third ≡ third) × (register_fd (λ fd. negsuc 0) true third (pos 2) ≡ done third))
        ⊎ ((get_elem? third 2 ≡ some (negsuc 0)) × (is_neg (pos 1) ≡ false)))
register_fd-IsTable_example =
    register_fd-IsTable (λ fd. pos 1) (λ fd. negsuc 0) third third 2 third-IsTable again_lem
