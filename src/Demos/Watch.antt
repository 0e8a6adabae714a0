-- ===== src/Demos/Watch.antt =====
-- demo/tcp_epoll_send_recvmsg_echo_demo.c: epoll with recvmsg and sendmsg. The state is the calls that
-- were made; what each call returns comes with the event that it is made for.
use iowrapper.Base.{
  ℕ, ◌-◌, Bool, ◌||◌, List, [], ◌∷◌, ◌++◌, ℤ, pos, is_neg, is_minus, is_le_zero, to_nat, Outcome,
  done, ◌>>=◌, ◌>>◌, exit_if, ltb, ◌==◌, if◌then◌else◌,
}
use iowrapper.IoOp.{max_message_len}
use iowrapper.Demos.{Env, listen_on}

-- `epoll_ctl` with EPOLL_CTL_ADD and EPOLL_CTL_DEL, and the calls on a connection.
pub data Call : Type 0 where
  watch : ℤ → Call
  unwatch shutdown close : ℕ → Call
  receives sends : ℕ → ℕ → Call

-- What `epoll_create1` and the first `epoll_ctl` return.
pub record EpollEnv : Type 0 where
  pub epoll_create : ℤ
  pub epoll_add : ℤ

-- What both epoll demos do behind the listening socket.
unfoldable pub watch_listener : EpollEnv → ℕ → Outcome Call
watch_listener env sockfd = do
  exit_if (is_minus env.epoll_create 1) 1
  exit_if (is_minus env.epoll_add 1) 1
  done (watch (pos sockfd))

pub setup : Env → EpollEnv → Outcome (List Call × ℕ)
unfolding listen_on watch_listener
setup env epoll = do
  exit_if (ltb env.argc 2) 1
  sockfd ← listen_on env
  first ← watch_listener epoll sockfd
  done (first ∷ [], sockfd)

-- An event, and what the calls that are made for it return.
pub record Event : Type 0 where
  pub fd : ℕ
  pub err : Bool
  pub hup : Bool
  pub accepted : ℤ
  pub epoll_add : ℤ
  pub received : ℤ
  pub sent : ℤ

unfoldable pub on_data : List Call → Event → List Call
on_data calls e =
    let asked = calls ++ (receives e.fd (max_message_len - 1) ∷ []) in
    if is_le_zero e.received
    then asked ++ (unwatch e.fd ∷ shutdown e.fd ∷ [])
    else (let sending = asked ++ (sends e.fd (to_nat e.received) ∷ []) in
        if is_neg e.sent then sending ++ (close e.fd ∷ []) else sending)

unfoldable pub handle : ℕ → List Call → Event → Outcome (List Call)
unfolding on_data
handle sockfd calls e =
    if e.err || e.hup
    then done (calls ++ (close e.fd ∷ []))
    else if e.fd == sockfd
    then (exit_if (is_minus e.accepted 1) 1
        >> exit_if (is_minus e.epoll_add 1) 1
        >> done (calls ++ (watch e.accepted ∷ [])))
    else done (on_data calls e)

unfoldable pub handle_each : ℕ → List Call → List Event → Outcome (List Call)
handle_each sockfd calls [] = done calls
handle_each sockfd calls (e ∷ es) = do calls' ← handle sockfd calls e; handle_each sockfd calls' es

-- One round of the loop: `n` is the result of `epoll_wait`.
unfoldable pub handle_all : ℕ → ℤ → List Call → List Event → Outcome (List Call)
handle_all sockfd n calls events = exit_if (is_minus n 1) 1 >> handle_each sockfd calls events
