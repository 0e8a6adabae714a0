-- ===== src/FileIo/Stuck.antt =====
-- A failed completion at the head of the queue is never taken off it.
use iowrapper.Base.{
  ℕ, zero, suc, ◌≡◌, refl, true, Option, some, List, [], ◌∷◌, replicate, arith, ℤ, pos, is_neg,
  Outcome, done, ◌>>=◌,
}
use iowrapper.FileIo.{Completion, pop_request}

module _ {R : Type 0} (peek : R → ℤ × Option Completion) (seen : R → R) where
  pop-stuck :
      (r : R) (c : Completion)
      → peek r ≡ (pos 0, some c)
      → is_neg c.res ≡ true
      → pop_request peek seen r ≡ done (record { ret = c.res; ring = r; events = [] })
  unfolding pop_request
  pop-stuck r c e h = ground arith

  -- `n` calls of `pop_request`, one after the other, with their results.
  pub pops : ℕ → R → Outcome (List ℤ × R)
  pops zero r = done ([], r)
  pops (suc n) r = do
    p ← pop_request peek seen r
    (rets, r') ← pops n p.ring
    done (p.ret ∷ rets, r')

  -- While the oldest completion has a negative result, every call of `pop_request` returns that
  -- result and leaves the ring as it was: no later completion is ever reached.
  pub pops-stuck :
      (n : ℕ) (r : R) (c : Completion)
      → peek r ≡ (pos 0, some c)
      → is_neg c.res ≡ true
      → pops n r ≡ done (replicate n c.res, r)
  unfolding pops
  pops-stuck zero r c e h = refl
  pops-stuck (suc n) r c e h = rw (pop-stuck r c e h) (rw (pops-stuck n r c e h))
