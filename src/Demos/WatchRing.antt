-- ===== src/Demos/WatchRing.antt =====
-- demo/tcp_epoll_send_recvmsg_iouring_echo_demo.c: epoll, with each transfer made through an io_uring
-- that holds no other request.
pub mod Laws
mod Tests
use iowrapper.Base.{
  ℕ, ◌-◌, Bool, true, false, ◌||◌, List, [], ◌∷◌, ◌++◌, none, ℤ, pos, is_neg, is_minus, is_le_zero,
  to_nat, Outcome, done, exit, ◌>>=◌, ◌>>◌, exit_if, ltb, ◌==◌, if◌then◌else◌,
}
use iowrapper.Uring.{Prep, recvmsg, sendmsg, Addr, row, no_flags, enqueue}
use iowrapper.IoOp.{Queue, max_message_len}
use iowrapper.Demos.{Env, open_ring, listen_on}
use iowrapper.Demos.Watch.{Call, watch, unwatch, shutdown, close, EpollEnv, watch_listener, Event}

-- A call, or a submission of all that is queued; the completion is waited for and marked as seen.
pub data Op : Type 0 where
  made : Call → Op
  submitted : Queue → Op

pub setup : Env → EpollEnv → Outcome (List Op × ℕ)
unfolding open_ring listen_on watch_listener
setup env epoll = do
  open_ring env
  sockfd ← listen_on env
  first ← watch_listener epoll sockfd
  done (made first ∷ [], sockfd)

-- The buffer of `main`.
abbrev pub buffer : Addr
buffer = row 0

-- `left` is the `user_data` of the entries, which nobody sets.
module _ (got : ℕ → Bool) (left : ℕ) where
  -- One entry of the empty queue, and its submission.
  transfer : Prep → Outcome Op
  unfolding enqueue
  transfer prep = do
    sq ←
        enqueue got []
          (record { prep = prep; flags = no_flags; buf_group = none; user_data = left })
    done (submitted sq)

  pub on_data : List Op → Event → Outcome (List Op)
  unfolding transfer
  on_data ops e = transfer (recvmsg e.fd buffer (max_message_len - 1)) >>= λ receiving.
      if is_le_zero e.received
      then done (ops ++ (receiving ∷ made (unwatch e.fd) ∷ made (shutdown e.fd) ∷ []))
      else (transfer (sendmsg e.fd buffer (to_nat e.received)) >>= λ sending.
          if is_neg e.sent
          then done (ops ++ (receiving ∷ sending ∷ made (close e.fd) ∷ []))
          else done (ops ++ (receiving ∷ sending ∷ [])))

  module _ (sockfd : ℕ) where
    pub handle : List Op → Event → Outcome (List Op)
    unfolding on_data
    handle ops e =
        if e.err || e.hup
        then done (ops ++ (made (close e.fd) ∷ []))
        else if e.fd == sockfd
        then (exit_if (is_minus e.accepted 1) 1
            >> exit_if (is_minus e.epoll_add 1) 1
            >> done (ops ++ (made (watch e.accepted) ∷ [])))
        else on_data ops e

    handle_each : List Op → List Event → Outcome (List Op)
    handle_each ops [] = done ops
    handle_each ops (e ∷ es) = do ops' ← handle ops e; handle_each ops' es

    pub handle_all : ℤ → List Op → List Event → Outcome (List Op)
    unfolding handle_each
    handle_all n ops events = exit_if (is_minus n 1) 1 >> handle_each ops events
