-- ===== src/Epoll/Laws.antt =====
-- What goes back to each connection in a round of the loop.
use mathlib.Core.List.{append_assoc}
use iowrapper.Base.{
  ap, ◌∙◌, ℕ, ◌+◌, ◌≡◌, true, List, [], ◌∷◌, ◌++◌, ℤ, is_minus, is_le_zero, to_nat, done, exit_if,
  >>=-eq-done, total, total-append, same, ◌==◌, if◌then◌else◌, arith,
}
use iowrapper.Epoll.{
  Call, watch, unwatch, shutdown, recv, send, Event, max_message_len, on_accept, on_read, handle,
  handle_each, handle_all,
}

-- The bytes that a call sends on fd, and whether it stops the watch or the traffic of fd.
abbrev pub sends_on : ℕ → Call → ℕ
sends_on fd (send n k) = if n == fd then k else 0
sends_on fd (watch z b) = 0
sends_on fd (unwatch n) = 0
sends_on fd (shutdown n) = 0
sends_on fd (recv n k) = 0

abbrev pub unwatches : ℕ → Call → ℕ
unwatches fd (unwatch n) = same n fd
unwatches fd (send n k) = 0
unwatches fd (watch z b) = 0
unwatches fd (shutdown n) = 0
unwatches fd (recv n k) = 0

abbrev pub shuts : ℕ → Call → ℕ
shuts fd (shutdown n) = same n fd
shuts fd (send n k) = 0
shuts fd (watch z b) = 0
shuts fd (unwatch n) = 0
shuts fd (recv n k) = 0

-- The bytes that an event brings on the connection fd, and whether it ends the connection.
abbrev pub brings : ℕ → ℕ → Event → ℕ
brings l fd e =
    if e.fd == l
    then 0
    else if is_le_zero e.received
    then 0
    else if e.fd == fd
    then to_nat e.received
    else 0

abbrev pub ends : ℕ → ℕ → Event → ℕ
ends l fd e = if e.fd == l then 0 else if is_le_zero e.received then same e.fd fd else 0

-- The calls of an event, behind those that were made before.
abbrev added : ℕ → Event → List Call
added l e =
    if e.fd == l
    then watch e.accept4 true ∷ []
    else if is_le_zero e.received
    then recv e.fd max_message_len ∷ unwatch e.fd ∷ shutdown e.fd ∷ []
    else recv e.fd max_message_len ∷ send e.fd (to_nat e.received) ∷ []

handle-added : (l : ℕ) (s t : List Call) (e : Event) → handle l s e ≡ done t → t ≡ s ++ added l e
unfolding handle on_accept on_read
handle-added l s t e h = ground (
  arith,
  append_assoc s (recv e.fd max_message_len ∷ []) (unwatch e.fd ∷ shutdown e.fd ∷ []),
  append_assoc s (recv e.fd max_message_len ∷ []) (send e.fd (to_nat e.received) ∷ []),
)

added-sends : (l fd : ℕ) (e : Event) → total (sends_on fd) (added l e) ≡ brings l fd e
added-sends l fd e = ground arith

added-unwatches : (l fd : ℕ) (e : Event) → total (unwatches fd) (added l e) ≡ ends l fd e
added-unwatches l fd e = ground arith

added-shuts : (l fd : ℕ) (e : Event) → total (shuts fd) (added l e) ≡ ends l fd e
added-shuts l fd e = ground arith

-- A weight of the calls that an event adds is that of the event.
handle_each-total :
    (w : Call → ℕ) (v : Event → ℕ) (l : ℕ)
    → ((e : Event) → total w (added l e) ≡ v e)
    → (s t : List Call) (es : List Event) → handle_each l s es ≡ done t
    → total w t ≡ total w s + total v es
unfolding handle_each
handle_each-total w v l a s t [] h = ground arith
handle_each-total w v l a s t (e ∷ es) h =
    let (s', h1, h2) = >>=-eq-done (handle l s e) _ h in
    let ih = handle_each-total w v l a s' t es h2 in
    let k = ap (total w) (handle-added l s s' e h1) ∙ total-append w s (added l e) in
    omega (arith, ih, k, a e)

-- Over a round of events that the server comes through, as many bytes are handed to `send` on a
-- connection as were received on it, and the connection is taken off the watch and shut down once
-- for each receive on it that fails or finds the end, and not otherwise.
pub handle_all-echo :
    (l fd : ℕ) (n : ℤ) (s t : List Call) (es : List Event)
    → handle_all l n s es ≡ done t
    → (total (sends_on fd) t ≡ total (sends_on fd) s + total (brings l fd) es)
      × (total (unwatches fd) t ≡ total (unwatches fd) s + total (ends l fd) es)
      × (total (shuts fd) t ≡ total (shuts fd) s + total (ends l fd) es)
unfolding handle_all
handle_all-echo l fd n s t es h =
    let (_, _, h1) = >>=-eq-done (exit_if (is_minus n 1) 1) _ h in
    (
      handle_each-total (sends_on fd) (brings l fd) l (added-sends l fd) s t es h1,
      handle_each-total (unwatches fd) (ends l fd) l (added-unwatches l fd) s t es h1,
      handle_each-total (shuts fd) (ends l fd) l (added-shuts l fd) s t es h1,
    )
