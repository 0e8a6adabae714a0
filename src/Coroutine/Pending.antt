-- ===== src/Coroutine/Pending.antt =====
-- What holds of the coroutine server together with the kernel, and how a change of a coroutine bears
-- on it.
use iowrapper.Base.{
  ℕ, ◌+◌, ◌≤◌, ◌≡◌, refl, ◌∙◌, ap, false, Option, none, some, List, [], ◌∷◌, map, ◌==◌,
  if◌then◌else◌, arith, total, All, Bool-cases, inl, inr,
}
use iowrapper.Uring.{Sqe}
use iowrapper.ConnInfo.{ConnInfo, of_user_data}
use iowrapper.EchoV0.System.{InRange}
use iowrapper.EchoV0.Connections.{bit}
use iowrapper.Coroutine.{Task, put}
use iowrapper.Coroutine.Changes.{info, serves, brings, present, IsPending}
use iowrapper.Coroutine.System.{World}

-- The requests on connection fd: queued, in flight, or completed and not yet handled.
unfoldable pub pending : ℕ → World → ℕ
pending fd w =
    total (λ e. serves fd (info e)) w.server.sq
    + total (λ d. serves fd (of_user_data d)) w.flight
    + total (λ c. serves fd (of_user_data c.user_data)) w.cq

-- What holds of the server together with the kernel: a connection has a request pending exactly if it
-- has a coroutine; a descriptor that an accept has yet to bring has none, and is brought once; and
-- each pending request is what a coroutine waits for.
pub record Sound (w : World) : Type 0 where
  pub one : (fd : ℕ) → pending fd w ≡ present (w.server.connections fd)
  pub fresh :
      (fd : ℕ) → total (brings fd) w.cq + present (w.server.connections fd) ≤ bit (w.opened fd)
  pub sq_in : All (λ e. IsPending w.server.connections (info e)) w.server.sq
  pub flight_in : All (λ d. IsPending w.server.connections (of_user_data d)) w.flight
  pub cq_in : All (λ c. IsPending w.server.connections (of_user_data c.user_data)) w.cq
  pub ranges : All InRange w.cq

pub present-none : (o : Option Task) → present o ≡ 0 → o ≡ none
present-none none h = refl
present-none (some t) h = absurd (omega (arith, h))

pub present-le : (o : Option Task) → present o ≤ 1
present-le none = omega arith
present-le (some t) = omega arith

pub present-put :
    (m : ℕ → Option Task) (fd : ℕ) (o : Option Task) (f : ℕ)
    → present (put m fd o f) ≡ (if fd == f then present o else present (m f))
unfolding put
present-put m fd o f = elim (Bool-cases (fd == f)) [ inl z ↦ rw z | inr z ↦ rw z ]

-- The `user_data` of the entries, as they go into flight.
pub total-user_data :
    (f : ℕ) (es : List (Sqe ℕ))
    → total (λ d. serves f (of_user_data d)) (map (λ e. e.user_data) es)
      ≡ total (λ e. serves f (info e)) es
total-user_data f [] = refl
total-user_data f (e ∷ es) = ap (λ n. serves f (info e) + n) (total-user_data f es)

pub All-user_data :
    (P : ConnInfo → Type 0) (es : List (Sqe ℕ))
    → All (λ e. P (info e)) es
    → All (λ d. P (of_user_data d)) (map (λ e. e.user_data) es)
All-user_data P [] h = tt
All-user_data P (e ∷ es) h = (h.0, All-user_data P es h.1)

-- A change of the coroutine of fd leaves what is pending on other connections.
module _ (m m' : ℕ → Option Task) (fd : ℕ) (o : Option Task)
    (agrees : (f : ℕ) → m' f ≡ put m fd o f) where
  agrees-off : (f : ℕ) → (fd == f) ≡ false → m' f ≡ m f
  unfolding put
  agrees-off f z = agrees f ∙ rw z

  IsPending-keep : (i : ConnInfo) → serves fd i ≡ 0 → IsPending m i → IsPending m' i
  IsPending-keep i z p = (
    λ e. let (t, a, b, c) = p.0 e in (t, agrees-off i.fd (ground arith) ∙ a, b, c),
    λ e. let (t, a, b, c) = p.1 e in (t, agrees-off i.fd (ground arith) ∙ a, b, c),
  )

  pub All-keep {ℓ} :
      {A : Type ℓ} (g : A → ConnInfo) (xs : List A)
      → total (λ x. serves fd (g x)) xs ≡ 0
      → All (λ x. IsPending m (g x)) xs
      → All (λ x. IsPending m' (g x)) xs
  All-keep g [] z h = tt
  All-keep g (x ∷ xs) z h =
      (IsPending-keep (g x) (omega (arith, z)) h.0, All-keep g xs (omega (arith, z)) h.1)
