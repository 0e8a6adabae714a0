-- ===== src/IoOp/Tests.antt =====
-- The theorems at concrete requests.
use iowrapper.Base.{ℕ, ◌≡◌, refl, Bool, true, none, [], ◌∷◌, negsuc, done, exit, arith}
use iowrapper.Uring.{Sqe, Addr, send, provide_buffers, no_flags, row, enqueue}
use iowrapper.ConnInfo.{of_user_data}
use iowrapper.IoOp.{write_type, provide_all, add_provide_buf, add_send_from_group_buff}
use iowrapper.IoOp.Laws.{group_sends, build-entry, add_provide_buf_group}

abbrev plenty : ℕ → Bool
plenty n = true

provide_fails : provide_all plenty [] 0 1337 (negsuc 0) ≡ exit 1
unfolding provide_all enqueue
provide_fails = refl

build-entry_example :
    (e : Sqe ℕ) × (add_send_from_group_buff plenty [] 5 9 7 no_flags ≡ done (e ∷ []))
    × ((e.prep ≡ send 5 (row 9) 7) × (e.flags ≡ no_flags) × (e.buf_group ≡ none))
    × (of_user_data e.user_data ≡ record { fd = 5; type = write_type; bid = 9 })
build-entry_example =
    build-entry plenty [] 5 no_flags (group_sends 9 7) refl (omega arith) (omega arith)

add_provide_buf_group_example :
    (e e' : Sqe ℕ) × (a : Addr) × (add_send_from_group_buff plenty [] 5 9 7 no_flags
      ≡ done (e ∷ []))
    × (e.prep ≡ send 5 a 7)
    × (add_provide_buf plenty [] (of_user_data e.user_data).bid 1337 ≡ done (e' ∷ []))
    × (e'.prep ≡ provide_buffers a 1024 1 1337 9)
add_provide_buf_group_example =
    add_provide_buf_group plenty [] [] 5 9 7 1337 no_flags refl refl (omega arith) (omega arith)
