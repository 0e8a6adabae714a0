-- ===== src/Coroutine/Entries.antt =====
-- What is pending with an entry of the queue, by the type of its request.
use iowrapper.Base.{ℕ, ◌<◌, ◌≡◌, ◌⊎◌, Option, some, arith, inl, inr}
use iowrapper.Uring.{Prep, Flags}
use iowrapper.ConnInfo.{ConnInfo, IsConnInfo, of_user_data-to_user_data}
use iowrapper.Coroutine.{
  Task, in_echo_read, in_echo_write, put, accept_type, read_type, write_type, prov_buf_type,
}
use iowrapper.Coroutine.Changes.{info, IsPending, entry_of}

pub info-entry :
    (prep : Prep) (flags : Flags) (group : Option ℕ) (i : ConnInfo)
    → IsConnInfo i
    → info (entry_of prep flags group i) ≡ i
info-entry prep flags group i v = of_user_data-to_user_data i v

pub typed : (i : ConnInfo) (k : ℕ) → IsConnInfo i → k < 4 → IsConnInfo (record i { type = k })
typed i k v h = record { fd_in = v.fd_in; type_in = omega arith; bid_in = v.bid_in }

pub IsPending-read :
    (m : ℕ → Option Task) (i : ConnInfo) (t : Task)
    → i.type ≡ read_type
    → m i.fd ≡ some t
    → t.point ≡ in_echo_read
    → t.conn_info ≡ i
    → IsPending m i
IsPending-read m i t e a b c = (λ z. (t, a, b, c), λ z. absurd (omega (arith, e, z)))

pub IsPending-write :
    (m : ℕ → Option Task) (i : ConnInfo) (t : Task)
    → i.type ≡ write_type
    → m i.fd ≡ some t
    → t.point ≡ in_echo_write
    → t.conn_info ≡ i
    → IsPending m i
IsPending-write m i t e a b c = (λ z. absurd (omega (arith, e, z)), λ z. (t, a, b, c))

pub IsPending-other :
    (m : ℕ → Option Task) (i : ConnInfo)
    → (i.type ≡ accept_type) ⊎ (i.type ≡ prov_buf_type)
    → IsPending m i
IsPending-other m i (inl e) = (λ z. absurd (omega (arith, e, z)), λ z. absurd (omega (arith, e, z)))
IsPending-other m i (inr e) = (λ z. absurd (omega (arith, e, z)), λ z. absurd (omega (arith, e, z)))

pub put-put :
    (m : ℕ → Option Task) (fd : ℕ) (a b : Option Task) (f : ℕ)
    → put (put m fd a) fd b f ≡ put m fd b f
unfolding put
put-put m fd a b f = ground arith
