-- ===== src/Lib.antt =====
-- Verification of the C programs of iowrapper: the TCP echo servers over io_uring and epoll, the
-- file interface that Go reaches through cgo, the demos with their request builders, and the echo
-- server with C++ coroutines.
--
-- The parts and how they interact
--   A server prepares requests in the submission queue of an io_uring, submits them, and handles the
--   completions that the kernel posts, in the order in which they are posted. What a completion is
--   for, it knows from the 64 bits of user_data that the kernel hands back: a `conn_info` by value
--   (io_uring_echo_server.c, the coroutine server, demo/io_op.c) or a pointer to an entry of a table
--   (versions 1 to 3).
--   A model of a server is therefore a record of what its loop changes, one function for each request
--   builder and each branch of the loop, and, for the first server, for version 1 and for the
--   coroutine server, a step relation that interleaves the server with the kernel: submission,
--   completion and handling.
--
-- Files (paths from the root of the repository; NET is netpoll/echo/c-iouring-server)
--   Base, Base/*: the shared names: Boolean tests, lists, C's int as pos and negsuc, and Outcome,
--     what a piece of C comes to: it goes on, ends the process with a status, or is undefined.
--   Uring: the calls of liburing that the programs make, recorded with their arguments.
--   ConnInfo: conn_info and its copies to and from user_data (demo/io_op.h, NET/io_uring_echo_server.c).
--   FileIo, FileIo/*: iouring/liburing.c: push_read_request, push_write_request, pop_request.
--   EchoV0, EchoV0/*: NET/io_uring_echo_server.c: the request builders and the branches of the loop
--     (EchoV0), main before the loop (Setup), the protocol of the answers (Requests), the server with
--     the kernel (System), what is counted along its runs (Balance, Buffers, Connections), and a batch
--     of completions (Batch).
--   Options, Registry, Startup: what the mains of versions 1 to 3 share: the command line, the table
--     of registered files (init_registerfiles), the buffers, the socket and the ring.
--   EchoV1, EchoV1/*: NET/io_uring_echo_server_v1.c: one table conns, whose entry fd is overwritten by
--     every request on fd; Setup is main before the loop, System the server with the kernel.
--   EchoV2, EchoV2/*: NET/io_uring_echo_server_v2.c: a ring of buffers that the kernel chooses from.
--   EchoV3, EchoV3/*: NET/io_uring_echo_server_v3.c: multishot polls and three tables.
--   IoOp, IoOp/*: demo/io_op.c and demo/io_op.h: the request builders of the demos. IoOp.provide_all
--     is the function provide_buffers.
--   Epoll, Epoll/*: netpoll/echo/c-epoll-server/main.c: the checks before the loop and the loop, as the
--     calls that they make.
--   Coroutine, Coroutine/*: netpoll/echo/cpp-coroutine-iouring-server: a coroutine for each connection,
--     as its promise and the co_await at which it waits; Startup is main before the loop, Asked and
--     Protocol compare it with EchoV0, System is the server with the kernel, Changes, Entries, Moves and
--     Handling say what a handled completion changes, Pending and Waiting what is pending along its
--     runs, and Failure is about receives that fail.
--   Demos: what the demo servers share before their loops. Demos/GroupRecv is
--     demo/tcp_iouring_send_recv_provide_buff_echo_demo.c, GroupMsg the demo with recvmsg on provided
--     buffers, OneBuffer demo/tcp_iouring_send_recvmsg_echo_demo.c, Watch and WatchRing the two epoll
--     demos, Blocking demo/tcp_send_recvmsg_demo.c and its echo variant; Weights is what the requests
--     of a completion weigh in a count.
--   Bench, Bench/*: demo/bench.c.
--
-- Correspondence
--   Functions and fields keep the names of the source. The branches of an event loop are named after
--   the type of the completion (on_accept, on_read, on_write, on_poll), its body is handle, and the
--   loop over a batch is handle_all. A failed check with exit(n) is Outcome.exit n; a write through
--   NULL or the address 1 (the wait of Demos/GroupRecv), an index outside a table and the overflow of an
--   int (the products of the message length in EchoV2) are Outcome.fault. Descriptors, lengths and results of calls are
--   ℕ or ℤ; in conn_info the conversions to 32 and 16 bits are written out. Options takes the options
--   as a list, since getopt and atoi are not in the repository.
--
-- Parameters
--   got n: whether io_uring_get_sqe returns an entry when n are taken since the last submission. The
--     programs do not check it; theorems that need room say how much (HasEntries, or got at a length).
--   update fd: the result of io_uring_register_files_update. Env, FilesEnv, RingEnv and TablesEnv hold
--     what the other calls of the operating system and of liburing return before the loop.
--   left, stale: what lies in memory that nobody has initialised: the promise of a new coroutine, the
--     user_data of an entry, and in Demos/GroupRecv and GroupMsg a variable that is jumped past.
--   reply (Demos/Blocking): what of the buffer is sent back, echoed or greeting.
--   Bench.Pass: what the clock and the calls of one pass return; a stream of them is the benchmark's
--     surroundings.
--   memalign: what posix_memalign gives to iouring/liburing.c.
--   The kernel (EchoV0/System, EchoV1/System, Coroutine/System) completes requests in any order. An
--   accept that succeeds gives a descriptor that is not open; a receive that chooses from a group takes
--   a buffer of it and reports it if it succeeds; if it fails, it may also take none and report 0.
--
-- Bounds and fuel
--   Every loop is over a list, or counts down the rounds that are left, but for the do-while loop of
--   demo/bench.c, which ends when the clock says so: Bench.loop takes fuel, one unit for each pass, and
--   one more than the index of the first late pass is enough. The event loops themselves do not end;
--   they are sequences of steps. An exception that nothing catches is the exit status 134.
--
-- Not modelled
--   Output, and the setting of socket options. The counters workcount, seen and clients are unbounded,
--   and so is off_t. A socket call that fails shows in the bind that follows it. The choice
--   of the polling mode is modelled in EchoV0/Setup alone. The builders of demo/io_op.c with recvmsg and
--   sendmsg hand out addresses on their stack; their entries are marked as dead, and what the kernel
--   finds there is not modelled. demo/eventfd.c and demo/helloworld.c, the
--   scripts, and the programs in Go and Rust are not modelled; nor are liburing and the kernel, but for
--   the assumptions above. The C++ files under demo hold comments alone.
pub mod Base
pub mod Uring
pub mod ConnInfo
pub mod FileIo
pub mod EchoV0
pub mod Options
pub mod Registry
pub mod Startup
pub mod EchoV1
pub mod EchoV2
pub mod EchoV3
pub mod IoOp
pub mod Epoll
pub mod Coroutine
pub mod Demos
pub mod Bench
