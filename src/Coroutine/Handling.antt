-- ===== src/Coroutine/Handling.antt =====
-- What the handling of a completion changes, whatever it is of.
use iowrapper.Base.{
  ℕ, ◌+◌, ◌≡◌, refl, sym, ◌∙◌, ap, Bool, none, [], ℤ, pos, negsuc, is_neg, is_minus, done, exit_if,
  ◌==◌, arith, Bool-cases, inl, inr, >>=-eq-done,
}
use mathlib.Core.List.{append-nil}
use iowrapper.Uring.{Cqe, bid_of_flags, enobufs}
use iowrapper.ConnInfo.{ConnInfo, IsConnInfo, of_user_data}
use iowrapper.EchoV0.System.{InRange}
use iowrapper.Coroutine.{
  Server, on_accept, handle, accept_type, read_type, write_type, prov_buf_type,
}
use iowrapper.Coroutine.Changes.{serves, brings, IsPending, Change, quiet}
use iowrapper.Coroutine.Moves.{on_accept-moves, on_accept-fails, on_read-moves, on_write-moves}

Change-same :
    (s u : Server) (c : Cqe ℕ)
    → u ≡ s
    → ((f : ℕ) → serves f (of_user_data c.user_data) + brings f c ≡ 0)
    → Change s u c
Change-same s u c e z =
    quiet [] (ap (λ x. x.sq) e ∙ sym (append-nil s.sq)) (ap (λ x. x.connections) e) (λ f. refl) tt z

module _ (got : ℕ → Bool) (l : ℕ) (left : ConnInfo × ℕ) where
  on_accept-Change :
      (s u : Server) (c : Cqe ℕ) (res : ℤ)
      → c.res ≡ res
      → (of_user_data c.user_data).type ≡ accept_type
      → InRange c
      → IsConnInfo left.0
      → ((fd : ℕ) → c.res ≡ pos fd → s.connections fd ≡ none)
      → on_accept got l left s res ≡ done u
      → Change s u c
  on_accept-Change s u c (negsuc n) r ty b v e h = on_accept-fails got l left s u c n ty r h
  on_accept-Change s u c (pos fd) r ty b v e h =
      on_accept-moves got l left s u c fd ty r (ground (arith, r, b)) v (e fd r) h

  pub handle-Change :
      (s u : Server) (c : Cqe ℕ)
      → let i = of_user_data c.user_data in
        InRange c
        → IsConnInfo left.0
        → ((fd : ℕ) → i.type ≡ accept_type → c.res ≡ pos fd → s.connections fd ≡ none)
        → IsPending s.connections i
        → handle got l left s c ≡ done u
        → Change s u c
  unfolding handle
  handle-Change s u c b v new p h =
      let i = of_user_data c.user_data in
      elim (Bool-cases (is_minus c.res enobufs)) [
        | inl z ↦ absurd (cc (rw z at h))
        | inr z ↦ elim (Bool-cases (i.type == prov_buf_type)) [
          | inl y ↦
              let (_, _, k) = >>=-eq-done (exit_if (is_neg c.res) 1) _ (rw y at (rw z at h)) in
              Change-same s u c (cc k) (λ f. ground arith)
          | inr y ↦ elim (Bool-cases (i.type == accept_type)) [
            | inl x ↦
                let ty : i.type ≡ accept_type = ground arith in
                on_accept-Change s u c c.res refl ty b v (λ fd. new fd ty)
                  (rw x at (rw y at (rw z at h)))
            | inr x ↦ elim (Bool-cases (i.type == read_type)) [
              | inl r ↦
                  let ty : i.type ≡ read_type = ground arith in
                  on_read-moves got l left s u c (bid_of_flags c.flags) ty (omega (arith, b.0))
                    (p.0 ty) (rw r at (rw x at (rw y at (rw z at h))))
              | inr r ↦ elim (Bool-cases (i.type == write_type)) [
                | inl w ↦
                    let ty : i.type ≡ write_type = ground arith in
                    on_write-moves got l left s u c ty (p.1 ty)
                      (rw w at (rw r at (rw x at (rw y at (rw z at h)))))
                | inr w ↦
                    Change-same s u c (cc (rw w at (rw r at (rw x at (rw y at (rw z at h))))))
                      (λ f. ground arith)
              ]
            ]
          ]
        ]
      ]
