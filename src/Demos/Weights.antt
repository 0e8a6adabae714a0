-- ===== src/Demos/Weights.antt =====
-- The requests that one completion calls for, weighed.
use iowrapper.Base.{
  ℕ, ◌+◌, ◌≡◌, refl, List, [], ◌∷◌, total, arith, ℤ, is_neg, is_le_zero, to_nat, same, ◌==◌,
  if◌then◌else◌,
}
use iowrapper.Uring.{
  Cqe, Prep, accept, recv, send, dead_recvmsg, provide_buffers, row, bid_of_flags,
}
use iowrapper.ConnInfo.{ConnInfo, of_user_data}
use iowrapper.IoOp.{max_message_len, accept_type, read_type, write_type}

-- The requests that a completion calls for: `rd` and `wr` make a receive and a send, `gid` names the
-- group, and `on` is the descriptor that the receive after a send is on.
abbrev pub asked : (Prep → ℕ) → (ℕ → Prep) → (ℕ → ℕ → ℕ → Prep) → ℕ → ℕ → ℕ → ConnInfo → ℤ → ℕ → ℕ
asked w rd wr gid sockfd on info res bid =
    if info.type == accept_type
    then if is_neg res then 0 else w (accept sockfd) + w (rd (to_nat res))
    else if info.type == read_type
    then if is_le_zero res
      then w (provide_buffers (row bid) max_message_len 1 gid bid)
      else w (wr info.fd bid (to_nat res))
    else if info.type == write_type
    then w (provide_buffers (row info.bid) max_message_len 1 gid info.bid)
      + (if is_le_zero res then 0 else w (rd on))
    else 0

-- The requests that hold buffer b of the group, those on the listening socket, and the receives on a
-- connection.
abbrev pub holds : ℕ → Prep → ℕ
holds b (send fd (row n) k) = same n b
holds b (provide_buffers (row n) len nr gid bid) = same n b
holds b p = 0

abbrev pub listens : Prep → ℕ
listens (accept fd) = 1
listens p = 0

abbrev pub receives : ℕ → Prep → ℕ
receives fd (recv n a k) = same n fd
receives fd (dead_recvmsg n) = same n fd
receives fd p = 0

-- The completions that name buffer b: of a receive whose flags do, whether or not it took a buffer,
-- and of a send from it.
abbrev pub names : ℕ → Cqe ℕ → ℕ
names b c =
    let i = of_user_data c.user_data in
    if i.type == read_type
    then same (bid_of_flags c.flags) b
    else if i.type == write_type
    then same i.bid b
    else 0

-- Accepts that succeeded.
abbrev pub arrives : Cqe ℕ → ℕ
arrives c =
    if (of_user_data c.user_data).type == accept_type then if is_neg c.res then 0 else 1 else 0

-- Accepts that brought the connection fd.
abbrev pub brings : ℕ → Cqe ℕ → ℕ
brings fd c =
    if (of_user_data c.user_data).type == accept_type
    then if is_neg c.res then 0 else same (to_nat c.res) fd
    else 0

-- Sends that succeeded, on any connection.
abbrev pub echoes : Cqe ℕ → ℕ
echoes c =
    if (of_user_data c.user_data).type == write_type then if is_le_zero c.res then 0 else 1 else 0

-- A sum over a list, by the position of each entry, counted from n.
abbrev pub tally : (ℕ → Cqe ℕ → ℕ) → ℕ → List (Cqe ℕ) → ℕ
tally v n [] = 0
tally v n (c ∷ cs) = v n c + tally v (n + 1) cs

pub tally-total : (v : Cqe ℕ → ℕ) (n : ℕ) (cs : List (Cqe ℕ)) → tally (λ k. v) n cs ≡ total v cs
tally-total v n [] = refl
tally-total v n (c ∷ cs) = omega (arith, tally-total v (n + 1) cs)
