-- ===== src/Epoll.antt =====
-- netpoll/echo/c-epoll-server/main.c: the echo server on epoll. Its state is the calls that it has
-- made; what each call returns comes with the event that it is made for.
pub mod Laws
mod Tests
use iowrapper.Base.{
  ℕ, Bool, true, false, List, [], ◌∷◌, ◌++◌, ℤ, pos, is_neg, is_minus, is_le_zero, to_nat, Outcome,
  done, exit, ◌>>=◌, ◌>>◌, exit_if, ltb, ◌==◌, if◌then◌else◌,
}

abbrev pub max_message_len : ℕ
max_message_len = 2048

-- `epoll_ctl` with EPOLL_CTL_ADD, edge-triggered or not, and with EPOLL_CTL_DEL, and the calls on a
-- connection.
pub data Call : Type 0 where
  watch : ℤ → Bool → Call
  unwatch shutdown : ℕ → Call
  recv send : ℕ → ℕ → Call

-- What the calls before the loop return.
pub record Env : Type 0 where
  pub argc : ℕ
  pub socket : ℤ
  pub bind : ℤ
  pub listen : ℤ
  pub epoll_create : ℤ
  pub epoll_add : ℤ

pub setup : Env → Outcome (List Call)
setup env = do
  exit_if (ltb env.argc 2) 0
  exit_if (is_neg env.socket) 1
  exit_if (is_neg env.bind) 1
  exit_if (is_neg env.listen) 1
  exit_if (is_neg env.epoll_create) 1
  exit_if (is_minus env.epoll_add 1) 1
  done (watch env.socket false ∷ [])

-- An event, and what the calls that the server makes for it return.
pub record Event : Type 0 where
  pub fd : ℕ
  pub accept4 : ℤ
  pub epoll_add : ℤ
  pub received : ℤ

on_accept : List Call → Event → Outcome (List Call)
on_accept calls event = do
  exit_if (is_minus event.accept4 1) 1
  exit_if (is_minus event.epoll_add 1) 1
  done (calls ++ (watch event.accept4 true ∷ []))

on_read : List Call → Event → List Call
on_read calls event =
    let asked = calls ++ (recv event.fd max_message_len ∷ []) in
    if is_le_zero event.received
    then asked ++ (unwatch event.fd ∷ shutdown event.fd ∷ [])
    else asked ++ (send event.fd (to_nat event.received) ∷ [])

pub handle : ℕ → List Call → Event → Outcome (List Call)
unfolding on_accept on_read
handle listen_fd calls event =
    if event.fd == listen_fd then on_accept calls event else done (on_read calls event)

handle_each : ℕ → List Call → List Event → Outcome (List Call)
handle_each listen_fd calls [] = done calls
handle_each listen_fd calls (e ∷ es) = do
  calls' ← handle listen_fd calls e
  handle_each listen_fd calls' es

-- One round of the loop: `new_events` is the result of `epoll_wait`.
pub handle_all : ℕ → ℤ → List Call → List Event → Outcome (List Call)
unfolding handle_each
handle_all listen_fd new_events calls events =
    exit_if (is_minus new_events 1) 1 >> handle_each listen_fd calls events
