-- ===== src/IoOp/Laws.antt =====
-- What the completions of the requests carry, and which buffers go back to their group.
use iowrapper.Base.{
  ℕ, ◌^◌, ◌<◌, ◌≡◌, refl, ap, Bool, Option, none, some, true, [], ◌∷◌, ◌++◌, length, Outcome, done,
  arith,
}
use iowrapper.Uring.{
  Sqe, Prep, send, dead_sendmsg, provide_buffers, Flags, Addr, row, enqueue, recv, dead_recvmsg,
  no_flags, null, accept,
}
use iowrapper.ConnInfo.{of_user_data, to_user_data, conn_info, conn_info_lem}
use iowrapper.IoOp.{
  Queue, max_message_len, accept_type, read_type, write_type, prov_buf_type, add_accept,
  add_recvmsg, add_recvmsg_from_group_buff, add_sendmsg, add_sendmsg_from_group_buff,
  add_provide_buf, add_recv_from_group_buff, add_send_from_group_buff,
}

-- A call of one of the builders that take a descriptor.
pub data Builder : Type 0 where
  accepts : Builder
  receives sends : Addr → ℕ → Builder
  group_receives group_receives_msg : ℕ → ℕ → Builder
  group_sends group_sends_msg : ℕ → ℕ → Builder

abbrev pub build : (ℕ → Bool) → Queue → ℕ → Flags → Builder → Outcome Queue
build got sq fd flags accepts = add_accept got sq fd flags
build got sq fd flags (receives a n) = add_recvmsg got sq fd a n flags
build got sq fd flags (sends a n) = add_sendmsg got sq fd a n flags
build got sq fd flags (group_receives g n) = add_recv_from_group_buff got sq fd g n flags
build got sq fd flags (group_receives_msg g n) = add_recvmsg_from_group_buff got sq fd g n flags
build got sq fd flags (group_sends b n) = add_send_from_group_buff got sq fd b n flags
build got sq fd flags (group_sends_msg b n) = add_sendmsg_from_group_buff got sq fd b n flags

-- The type and the buffer that the completion of a call is to carry.
abbrev pub type_of : Builder → ℕ
type_of accepts = accept_type
type_of (receives a n) = read_type
type_of (sends a n) = write_type
type_of (group_receives g n) = read_type
type_of (group_receives_msg g n) = read_type
type_of (group_sends b n) = write_type
type_of (group_sends_msg b n) = write_type

abbrev pub bid_of : Builder → ℕ
bid_of (group_sends b n) = b
bid_of (group_sends_msg b n) = b
bid_of accepts = 0
bid_of (receives a n) = 0
bid_of (sends a n) = 0
bid_of (group_receives g n) = 0
bid_of (group_receives_msg g n) = 0

-- What a call asks of the kernel.
abbrev pub prep_of : ℕ → Builder → Prep
prep_of fd accepts = accept fd
prep_of fd (receives a n) = dead_recvmsg fd
prep_of fd (sends a n) = dead_sendmsg fd
prep_of fd (group_receives g n) = recv fd null n
prep_of fd (group_receives_msg g n) = dead_recvmsg fd
prep_of fd (group_sends b n) = send fd (row b) n
prep_of fd (group_sends_msg b n) = dead_sendmsg fd

abbrev pub group_of : Builder → Option ℕ
group_of (group_receives g n) = some g
group_of (group_receives_msg g n) = some g
group_of accepts = none
group_of (receives a n) = none
group_of (sends a n) = none
group_of (group_sends b n) = none
group_of (group_sends_msg b n) = none

abbrev pub entry_of : ℕ → Flags → Builder → Sqe ℕ
entry_of fd flags b = record {
  prep = prep_of fd b;
  flags = flags;
  buf_group = group_of b;
  user_data = to_user_data (conn_info fd (type_of b) (bid_of b));
}

build_lem :
    (got : ℕ → Bool) (sq : Queue) (fd : ℕ) (flags : Flags) (b : Builder)
    → got (length sq) ≡ true
    → build got sq fd flags b ≡ done (sq ++ (entry_of fd flags b ∷ []))
unfolding add_accept add_recvmsg add_recvmsg_from_group_buff add_sendmsg add_sendmsg_from_group_buff
    add_recv_from_group_buff add_send_from_group_buff enqueue
build_lem got sq fd flags accepts g = rw g
build_lem got sq fd flags (receives a n) g = rw g
build_lem got sq fd flags (sends a n) g = rw g
build_lem got sq fd flags (group_receives i n) g = rw g
build_lem got sq fd flags (group_receives_msg i n) g = rw g
build_lem got sq fd flags (group_sends i n) g = rw g
build_lem got sq fd flags (group_sends_msg i n) g = rw g

type_of-lt : (b : Builder) → type_of b < 2 ^ 16
type_of-lt accepts = omega arith
type_of-lt (receives a n) = omega arith
type_of-lt (sends a n) = omega arith
type_of-lt (group_receives i n) = omega arith
type_of-lt (group_receives_msg i n) = omega arith
type_of-lt (group_sends i n) = omega arith
type_of-lt (group_sends_msg i n) = omega arith

-- With room in the queue, each builder of a request on a descriptor appends one entry that asks
-- for what its name says, with the flags that it was called with and the group of its buffers, but
-- whose message is gone if it is one of those with recvmsg or sendmsg. Its completion carries the
-- descriptor, the type of the request and, for a send from the group, the buffer, if the descriptor and
-- the buffer are in the ranges of their C types.
pub build-entry :
    (got : ℕ → Bool) (sq : Queue) (fd : ℕ) (flags : Flags) (b : Builder)
    → got (length sq) ≡ true
    → fd < 2 ^ 32
    → bid_of b < 2 ^ 16
    → (e : Sqe ℕ) × (build got sq fd flags b ≡ done (sq ++ (e ∷ [])))
      × ((e.prep ≡ prep_of fd b) × (e.flags ≡ flags) × (e.buf_group ≡ group_of b))
      × (of_user_data e.user_data ≡ record { fd = fd; type = type_of b; bid = bid_of b })
build-entry got sq fd flags b g h k = (
  entry_of fd flags b,
  build_lem got sq fd flags b g,
  (refl, refl, refl),
  conn_info_lem fd (type_of b) (bid_of b) h (type_of-lt b) k,
)

-- With room in the queue, and a descriptor and a buffer in the ranges of their C types, the buffer
-- that add_send_from_group_buff names in its request is the one that add_provide_buf gives back to
-- the group, called with the identifier that the completion of the send carries.
pub add_provide_buf_group :
    (got : ℕ → Bool) (sq sq' : Queue) (fd bid size gid : ℕ) (flags : Flags)
    → got (length sq) ≡ true
    → got (length sq') ≡ true
    → fd < 2 ^ 32
    → bid < 2 ^ 16
    → (e e' : Sqe ℕ) × (a : Addr) × (add_send_from_group_buff got sq fd bid size flags
        ≡ done (sq ++ (e ∷ [])))
      × (e.prep ≡ send fd a size)
      × (add_provide_buf got sq' (of_user_data e.user_data).bid gid ≡ done (sq' ++ (e' ∷ [])))
      × (e'.prep ≡ provide_buffers a max_message_len 1 gid bid)
unfolding add_provide_buf enqueue
add_provide_buf_group got sq sq' fd bid size gid flags g g' h k =
    let b = group_sends bid size in
    let back = ap (λ c. c.bid) (conn_info_lem fd write_type bid h (omega arith) k) in
    (
      entry_of fd flags b,
      record {
        prep = provide_buffers (row bid) max_message_len 1 gid bid;
        flags = no_flags;
        buf_group = none;
        user_data = to_user_data (conn_info 0 prov_buf_type 0);
      },
      row bid,
      build_lem got sq fd flags b g,
      refl,
      rw (g', back),
      refl,
    )
