-- ===== src/EchoV0/Balance.antt =====
-- A step of the system seen through a pair of weights, one on requests and one on completions.
use mathlib.Core.List.{map-append}
use iowrapper.Base.{
  ℕ, ◌+◌, ◌≤◌, ◌≡◌, refl, sym, ◌∙◌, ap, Bool, some, List, [], ◌∷◌, ◌++◌, map, ℤ, done, arith, total,
  total-append,
}
use iowrapper.Uring.{Cqe, Sqe, Call, Prep, send, row, provide_buffers, recv}
use iowrapper.ConnInfo.{
  ConnInfo, of_user_data, to_user_data, of_user_data-to_user_data, conn_info-IsConnInfo,
}
use iowrapper.EchoV0.{Server, handle}
use iowrapper.EchoV0.Requests.{
  Request, accepts, reads, writes, provides, entry, info_of, answer, handle-done,
}
use iowrapper.EchoV0.System.{World, Kernel}

-- The request that an entry was made of. The flags, the buffer group and the length of a receive are left
-- out: they are the same in every entry that this server makes of one.
unfoldable pub request_of : Prep → Request
request_of (send fd (row bid) size) = writes fd bid size
request_of (provide_buffers a len nr gid bid) = provides bid
request_of (recv fd a len) = reads fd
request_of p = accepts

unfoldable pub requests_of : List (Sqe ℕ) → List Request
requests_of = map (λ e. request_of e.prep)

pub requests_of-entries : (l : ℕ) (rs : List Request) → requests_of (map (entry l) rs) ≡ rs
unfolding requests_of request_of
requests_of-entries l [] = refl
requests_of-entries l (accepts ∷ rs) = ap (◌∷◌ accepts) (requests_of-entries l rs)
requests_of-entries l (reads fd ∷ rs) = ap (◌∷◌ (reads fd)) (requests_of-entries l rs)
requests_of-entries l (writes fd bid n ∷ rs) = ap (◌∷◌ (writes fd bid n)) (requests_of-entries l rs)
requests_of-entries l (provides bid ∷ rs) = ap (◌∷◌ (provides bid)) (requests_of-entries l rs)

-- What `of_user_data` finds in a completion is what its request was made with.
pub info-user_data : (l : ℕ) (r : Request) → of_user_data (to_user_data (info_of l r)) ≡ info_of l r
info-user_data l accepts = of_user_data-to_user_data _ (conn_info-IsConnInfo l 0 0)
info-user_data l (reads fd) = of_user_data-to_user_data _ (conn_info-IsConnInfo fd 1 0)
info-user_data l (writes fd bid n) = of_user_data-to_user_data _ (conn_info-IsConnInfo fd 2 bid)
info-user_data l (provides bid) = of_user_data-to_user_data _ (conn_info-IsConnInfo 0 3 0)

abbrev pub weigh : (ConnInfo → ℤ → ℕ → ℕ) → Cqe ℕ → ℕ
weigh wc c = wc (of_user_data c.user_data) c.res c.flags

module _ (got : ℕ → Bool) (l : ℕ) where
  -- What a `handles` step does, in terms of the answer.
  pub handles-answer :
      (w : World) (c : Cqe ℕ) (t : Server) (sq : List Request)
      → handle got l (record { sq = map (entry l) w.sq; calls = [] }) c ≡ done t
      → t.sq ≡ map (entry l) sq
      → (a : List Request × List Call) × (answer (of_user_data c.user_data) c.res c.flags ≡ some a)
        × (sq ≡ w.sq ++ a.0)
        × (t.calls ≡ a.1)
  handles-answer w c t sq h e =
      let (a, ans, s) = handle-done got l _ t c h in
      (
        a,
        ans,
        sym (requests_of-entries l sq)
            ∙ ap requests_of (sym e ∙ ap (λ s. s.sq) s ∙ sym (map-append (entry l) w.sq a.0))
            ∙ requests_of-entries l (w.sq ++ a.0),
        ap (λ s. s.calls) s,
      )

module _ (wr : Request → ℕ) (wc : ConnInfo → ℤ → ℕ → ℕ) where
  -- All the requests that are queued or in flight and all the completions that wait.
  unfoldable pub load : World → ℕ
  load w = total wr w.flight + total wr w.sq + total (weigh wc) w.cq

  pub load-submits :
      (w u : World) → u ≡ record w { sq = []; flight = w.flight ++ w.sq } → load u ≡ load w
  unfolding load
  load-submits w u e = rw e (omega (arith, total-append wr w.flight w.sq))

  pub load-completes :
      (l : ℕ) (w u : World) (xs ys : List Request) (r : Request) (c : Cqe ℕ) (k : Kernel)
      → w.flight ≡ xs ++ (r ∷ ys)
      → c.user_data ≡ to_user_data (info_of l r)
      → u ≡ record w { kernel = k; flight = xs ++ ys; cq = w.cq ++ (c ∷ []) }
      → load u + wr r ≡ load w + wc (info_of l r) c.res c.flags
  unfolding load
  load-completes l w u xs ys r c k f d e = rw e (
      omega (
        arith,
        ap (total wr) f,
        total-append wr xs ys,
        total-append wr xs (r ∷ ys),
        total-append (weigh wc) w.cq (c ∷ []),
        ap (λ i. wc i c.res c.flags) (ap of_user_data d ∙ info-user_data l r),
      ))

  pub load-handles :
      (w u : World) (c : Cqe ℕ) (rest : List (Cqe ℕ)) (k : Kernel) (sq : List Request)
      (rs : List Request)
      → w.cq ≡ c ∷ rest
      → sq ≡ w.sq ++ rs
      → u ≡ record w { kernel = k; sq = sq; cq = rest }
      → load u + weigh wc c ≡ load w + total wr rs
  unfolding load
  load-handles w u c rest k sq rs q s e =
      rw e (omega (arith, ap (total (weigh wc)) q, ap (total wr) s, total-append wr w.sq rs))

  pub load-ge :
      (w : World) (c : Cqe ℕ) (rest : List (Cqe ℕ)) → w.cq ≡ c ∷ rest → weigh wc c ≤ load w
  unfolding load
  load-ge w c rest q = omega (arith, ap (total (weigh wc)) q)
