-- ===== src/IoOp.antt =====
-- demo/io_op.c and demo/io_op.h: the request builders of the demo servers. `bufs` is an array of
-- arrays, so that `bufs[bid]` and `&bufs[bid]` are the address of its row `bid`. The builders with
-- recvmsg and sendmsg put their message on their own stack, which is gone when they return.
pub mod Laws
pub mod Weights
mod Tests
use iowrapper.Base.{
  ℕ, Bool, Option, none, some, List, [], ◌∷◌, ℤ, negsuc, is_neg, is_minus, if◌then◌else◌, Outcome,
  done, ◌>>=◌, ◌>>◌, exit_if,
}
use iowrapper.Uring.{
  Sqe, Prep, accept, recv, send, dead_recvmsg, dead_sendmsg, provide_buffers, Flags, no_flags, null,
  row, Addr, enqueue,
}
use iowrapper.ConnInfo.{ConnInfo, conn_info, to_user_data}

abbrev pub max_message_len : ℕ
max_message_len = 1024

abbrev pub buffers_count : ℕ
buffers_count = 4096

-- The enumeration of request types.
abbrev pub accept_type : ℕ
accept_type = 1

abbrev pub read_type : ℕ
read_type = 2

abbrev pub write_type : ℕ
write_type = 3

abbrev pub prov_buf_type : ℕ
prov_buf_type = 4

abbrev pub Queue : Type 0
Queue = List (Sqe ℕ)

-- `create_server_socket`, with what `socket`, `bind` and `listen` return: the socket or -1, and the
-- sockets that it closes.
pub create_server_socket : ℤ → ℤ → ℤ → ℤ × List ℤ
create_server_socket sockfd bound listening =
    if is_minus sockfd 1
    then (negsuc 0, [])
    else if is_minus bound 1
    then (negsuc 0, sockfd ∷ [])
    else if is_minus listening 1
    then (negsuc 0, sockfd ∷ [])
    else (sockfd, [])

module _ (got : ℕ → Bool) where
  submit_entry : Queue → Prep → Flags → Option ℕ → ConnInfo → Outcome Queue
  unfolding enqueue
  submit_entry sq prep flags group info =
      enqueue got sq
        (record { prep = prep; flags = flags; buf_group = group; user_data = to_user_data info })

  unfoldable pub add_accept : Queue → ℕ → Flags → Outcome Queue
  unfolding submit_entry
  add_accept sq fd flags = submit_entry sq (accept fd) flags none (conn_info fd accept_type 0)

  unfoldable pub add_recvmsg : Queue → ℕ → Addr → ℕ → Flags → Outcome Queue
  unfolding submit_entry
  add_recvmsg sq fd buff buff_size flags =
      submit_entry sq (dead_recvmsg fd) flags none (conn_info fd read_type 0)

  unfoldable pub add_recvmsg_from_group_buff : Queue → ℕ → ℕ → ℕ → Flags → Outcome Queue
  unfolding submit_entry
  add_recvmsg_from_group_buff sq fd gid buff_size flags =
      submit_entry sq (dead_recvmsg fd) flags (some gid) (conn_info fd read_type 0)

  unfoldable pub add_sendmsg : Queue → ℕ → Addr → ℕ → Flags → Outcome Queue
  unfolding submit_entry
  add_sendmsg sq fd buff msg_size flags =
      submit_entry sq (dead_sendmsg fd) flags none (conn_info fd write_type 0)

  unfoldable pub add_sendmsg_from_group_buff : Queue → ℕ → ℕ → ℕ → Flags → Outcome Queue
  unfolding submit_entry
  add_sendmsg_from_group_buff sq fd bid msg_size flags =
      submit_entry sq (dead_sendmsg fd) flags none (conn_info fd write_type bid)

  -- The queue as it is submitted. `left` is the `user_data` of an entry that nobody sets, `res` the
  -- result of the completion that the call waits for.
  unfoldable pub provide_all : Queue → ℕ → ℕ → ℤ → Outcome Queue
  unfolding enqueue
  provide_all sq left gid res = do
    sq' ← enqueue got sq (record {
      prep = provide_buffers (row 0) max_message_len buffers_count gid 0;
      flags = no_flags;
      buf_group = none;
      user_data = left;
    })
    exit_if (is_neg res) 1 >> done sq'

  unfoldable pub add_provide_buf : Queue → ℕ → ℕ → Outcome Queue
  unfolding submit_entry
  add_provide_buf sq bid gid =
      submit_entry sq (provide_buffers (row bid) max_message_len 1 gid bid) no_flags none
        (conn_info 0 prov_buf_type 0)

  unfoldable pub add_recv_from_group_buff : Queue → ℕ → ℕ → ℕ → Flags → Outcome Queue
  unfolding submit_entry
  add_recv_from_group_buff sq fd gid message_size flags =
      submit_entry sq (recv fd null message_size) flags (some gid) (conn_info fd read_type 0)

  unfoldable pub add_send_from_group_buff : Queue → ℕ → ℕ → ℕ → Flags → Outcome Queue
  unfolding submit_entry
  add_send_from_group_buff sq fd bid message_size flags =
      submit_entry sq (send fd (row bid) message_size) flags none (conn_info fd write_type bid)
