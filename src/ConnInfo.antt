-- ===== src/ConnInfo.antt =====
-- `conn_info` of demo/io_op.h and netpoll/echo/c-iouring-server/io_uring_echo_server.c: what a
-- request carries to its completion, copied by memcpy into the 64 bits of `user_data`. The layout
-- is that of a little-endian machine: fd in the low 32 bits, type above it, bid on top.
mod Tests
use iowrapper.Base.{ℕ, ◌+◌, ◌*◌, ◌/◌, ◌%◌, ◌^◌, ◌<◌, ◌≡◌, arith}

pub record ConnInfo : Type 0 where
  pub fd : ℕ
  pub type : ℕ
  pub bid : ℕ

-- The fields are a `__u32` and two `__u16`.
pub record IsConnInfo (c : ConnInfo) : Type 0 where
  pub fd_in : c.fd < 2 ^ 32
  pub type_in : c.type < 2 ^ 16
  pub bid_in : c.bid < 2 ^ 16

-- `conn_info conn_i = {.fd = fd, .type = type, .bid = bid}`, with C's conversions to the fields.
unfoldable pub conn_info : ℕ → ℕ → ℕ → ConnInfo
conn_info fd type bid = record { fd = fd % 2 ^ 32; type = type % 2 ^ 16; bid = bid % 2 ^ 16 }

-- `memcpy(&sqe->user_data, &conn_i, sizeof(conn_i))`
unfoldable pub to_user_data : ConnInfo → ℕ
to_user_data c = c.fd + 2 ^ 32 * c.type + 2 ^ 48 * c.bid

-- `memcpy(&conn_i, &cqe->user_data, sizeof(conn_i))`
unfoldable pub of_user_data : ℕ → ConnInfo
of_user_data w = record { fd = w % 2 ^ 32; type = w / 2 ^ 32 % 2 ^ 16; bid = w / 2 ^ 48 % 2 ^ 16 }

-- What is copied into a request comes back out of its completion.
pub of_user_data-to_user_data : (c : ConnInfo) → IsConnInfo c → of_user_data (to_user_data c) ≡ c
unfolding of_user_data to_user_data
of_user_data-to_user_data c v = ground arith

pub to_user_data-lt : (c : ConnInfo) → IsConnInfo c → to_user_data c < 2 ^ 64
unfolding to_user_data
to_user_data-lt c v = omega arith

pub to_user_data-of_user_data : (w : ℕ) → w < 2 ^ 64 → to_user_data (of_user_data w) ≡ w
unfolding of_user_data to_user_data
to_user_data-of_user_data w h = omega arith

pub of_user_data-IsConnInfo : (w : ℕ) → IsConnInfo (of_user_data w)
unfolding of_user_data
of_user_data-IsConnInfo w = omega arith

pub conn_info-IsConnInfo : (fd type bid : ℕ) → IsConnInfo (conn_info fd type bid)
unfolding conn_info
conn_info-IsConnInfo fd type bid = omega arith

-- What a completion carries of a request made with values in range is those values.
pub conn_info_lem :
    (fd type bid : ℕ)
    → fd < 2 ^ 32
    → type < 2 ^ 16
    → bid < 2 ^ 16
    → of_user_data (to_user_data (conn_info fd type bid))
      ≡ record { fd = fd; type = type; bid = bid }
unfolding conn_info of_user_data to_user_data
conn_info_lem fd type bid h k l = ground arith
