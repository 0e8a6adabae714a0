-- ===== src/EchoV0/Requests.antt =====
-- What each completion is answered with: the requests, as the protocol sees them, and the closes.
-- `handle` is shown to do just this.
use mathlib.Core.List.{append_assoc, append-nil}
use iowrapper.Base.{
  ℕ, ◌+◌, ◌≤◌, ◌≡◌, refl, ap, Bool, Option, none, some, List, [], ◌∷◌, ◌++◌, map, length, ℤ, pos,
  negsuc, is_neg, is_le_zero, is_minus, to_nat, Outcome, done, exit, ◌>>=◌, ◌==◌, arith,
  if◌then◌else◌, length-append,
}
use iowrapper.Uring.{
  Sqe, Cqe, Call, close, no_flags, select_buffer, accept, recv, send, provide_buffers, null, row,
  bid_of_flags, enobufs, HasEntries, enqueue,
}
use iowrapper.ConnInfo.{ConnInfo, conn_info, to_user_data, of_user_data}
use iowrapper.EchoV0.{
  Server, handle, on_accept, on_read, on_write, group_id, max_message_len, accept_type, read_type,
  write_type, prov_buf_type,
}

pub data Request : Type 0 where
  accepts : Request
  reads : ℕ → Request
  writes : ℕ → ℕ → ℕ → Request
  provides : ℕ → Request

-- The `conn_info` of a request.
abbrev pub info_of : ℕ → Request → ConnInfo
info_of listen_fd accepts = conn_info listen_fd accept_type 0
info_of listen_fd (reads fd) = conn_info fd read_type 0
info_of listen_fd (writes fd bid size) = conn_info fd write_type bid
info_of listen_fd (provides bid) = conn_info 0 prov_buf_type 0

-- The submission queue entry of a request.
abbrev pub entry : ℕ → Request → Sqe ℕ
entry listen_fd accepts = record {
  prep = accept listen_fd;
  flags = no_flags;
  buf_group = none;
  user_data = to_user_data (info_of listen_fd accepts);
}
entry listen_fd (reads fd) = record {
  prep = recv fd null 0;
  flags = select_buffer;
  buf_group = some group_id;
  user_data = to_user_data (info_of listen_fd (reads fd));
}
entry listen_fd (writes fd bid size) = record {
  prep = send fd (row bid) size;
  flags = no_flags;
  buf_group = none;
  user_data = to_user_data (info_of listen_fd (writes fd bid size));
}
entry listen_fd (provides bid) = record {
  prep = provide_buffers (row bid) max_message_len 1 group_id bid;
  flags = no_flags;
  buf_group = none;
  user_data = to_user_data (info_of listen_fd (provides bid));
}

-- The answer to a completion, or none where the server exits with status 1.
unfoldable pub answer : ConnInfo → ℤ → ℕ → Option (List Request × List Call)
answer info res flags =
    if is_minus res enobufs
    then none
    else if info.type == prov_buf_type
    then if is_neg res then none else some ([], [])
    else if info.type == accept_type
    then if is_neg res
      then some (accepts ∷ [], [])
      else some (reads (to_nat res) ∷ accepts ∷ [], [])
    else if info.type == read_type
    then if is_le_zero res
      then some (provides (bid_of_flags flags) ∷ [], close info.fd ∷ [])
      else some (writes info.fd (bid_of_flags flags) (to_nat res) ∷ [], [])
    else if info.type == write_type
    then some (provides info.bid ∷ reads info.fd ∷ [], [])
    else some ([], [])

pub answer-length :
    (info : ConnInfo) (res : ℤ) (flags : ℕ) {a : List Request × List Call}
    → answer info res flags ≡ some a
    → length a.0 ≤ 2
unfolding answer
answer-length info res flags h = ground arith

-- The server with the entries of the requests in its queue and the calls made.
abbrev pub extend : ℕ → Server → List Request × List Call → Server
extend listen_fd s (rs, cs) = record {
  sq = s.sq ++ map (entry listen_fd) rs;
  calls = s.calls ++ cs;
}

-- The outcome of handling one completion: exit with status 1, or the answer.
abbrev pub outcome_of : ℕ → Server → Option (List Request × List Call) → Outcome Server
outcome_of listen_fd s none = exit 1
outcome_of listen_fd s (some a) = done (extend listen_fd s a)

module _ (got : ℕ → Bool) (listen_fd : ℕ) where
  -- The entries are taken one at a time; the first that is not there is written through NULL.
  submit_all : Server → List Request → List Call → Outcome Server
  unfolding enqueue
  submit_all s [] cs = done (record s { calls = s.calls ++ cs })
  submit_all s (r ∷ rs) cs =
      enqueue got s.sq (entry listen_fd r) >>= λ sq. submit_all (record s { sq = sq }) rs cs

  submit_answer : Server → Option (List Request × List Call) → Outcome Server
  submit_answer s none = exit 1
  submit_answer s (some (rs, cs)) = submit_all s rs cs

  submit_nothing : (s : Server) → submit_all s [] [] ≡ done s
  unfolding submit_all
  submit_nothing s = ap (λ l. done (record s { calls = l })) (append-nil s.calls)

  on_accept-submit :
      (s : Server) (res : ℤ)
      → on_accept got listen_fd s res
        ≡ submit_all s (if is_neg res then accepts ∷ [] else reads (to_nat res) ∷ accepts ∷ []) []
  unfolding on_accept submit_all enqueue
  on_accept-submit s (pos n) = ground (arith, append-nil s.calls)
  on_accept-submit s (negsuc n) = ground (arith, append-nil s.calls)

  on_read-submit :
      (s : Server) (info : ConnInfo) (res : ℤ) (bid : ℕ)
      → on_read got listen_fd s info res bid ≡ (
          if is_le_zero res
          then submit_all s (provides bid ∷ []) (close info.fd ∷ [])
          else submit_all s (writes info.fd bid (to_nat res) ∷ []) [])
  unfolding on_read submit_all enqueue
  on_read-submit s info res bid = ground (arith, append-nil s.calls)

  on_write-submit :
      (s : Server) (info : ConnInfo)
      → on_write got listen_fd s info ≡ submit_all s (provides info.bid ∷ reads info.fd ∷ []) []
  unfolding on_write submit_all enqueue
  on_write-submit s info = ground (arith, append-nil s.calls)

  handle-submit :
      (s : Server) (c : Cqe ℕ)
      → handle got listen_fd s c ≡ submit_answer s (answer (of_user_data c.user_data) c.res c.flags)
  unfolding handle answer submit_answer
  handle-submit s c =
      let i = of_user_data c.user_data in
      ground (
        arith,
        submit_nothing s,
        on_accept-submit s c.res,
        on_read-submit s i c.res (bid_of_flags c.flags),
        on_write-submit s i,
      )

  submit_all-done :
      (rs : List Request) (cs : List Call) (s t : Server)
      → submit_all s rs cs ≡ done t
      → t ≡ extend listen_fd s (rs, cs)
  unfolding submit_all enqueue
  submit_all-done [] cs s t h = ground (arith, append-nil s.sq)
  submit_all-done (r ∷ rs) cs s t h =
      let e = entry listen_fd r in
      ground (
        arith,
        submit_all-done rs cs (record s { sq = s.sq ++ (e ∷ []) }) t,
        append_assoc s.sq (e ∷ []) (map (entry listen_fd) rs),
      )

  submit_all-room :
      (k : ℕ) (rs : List Request) (cs : List Call) (s : Server)
      → HasEntries got k
      → length s.sq + length rs ≤ k
      → submit_all s rs cs ≡ done (extend listen_fd s (rs, cs))
  unfolding submit_all enqueue
  submit_all-room k [] cs s room h = ground (arith, append-nil s.sq)
  submit_all-room k (r ∷ rs) cs s room h =
      let e = entry listen_fd r in
      ground (
        arith,
        room (length s.sq) (omega arith),
        length-append s.sq (e ∷ []),
        submit_all-room k rs cs (record s { sq = s.sq ++ (e ∷ []) }) room,
        append_assoc s.sq (e ∷ []) (map (entry listen_fd) rs),
      )

  -- Where `handle` goes on, it has put the answer behind what was there, and nothing else.
  pub handle-done :
      (s t : Server) (c : Cqe ℕ)
      → handle got listen_fd s c ≡ done t
      → (a : List Request × List Call) × (answer (of_user_data c.user_data) c.res c.flags ≡ some a)
        × (t ≡ extend listen_fd s a)
  unfolding submit_answer
  handle-done s t c h = go (answer (of_user_data c.user_data) c.res c.flags) refl
    where
      go :
          (o : Option (List Request × List Call))
          → answer (of_user_data c.user_data) c.res c.flags ≡ o
          → (a : List Request × List Call) × (answer (of_user_data c.user_data) c.res c.flags
              ≡ some a)
            × (t ≡ extend listen_fd s a)
      go none e = absurd (cc (handle-submit s c))
      go (some (rs, cs)) e =
          ((rs, cs), e, submit_all-done rs cs s t (cc (handle-submit s c, ap (submit_answer s) e)))

  -- While two entries of the submission queue are left, the loop body does exactly what `answer`
  -- says of the completion: it exits with status 1, or it appends the requests and the calls.
  pub handle-answer :
      (k : ℕ) (s : Server) (c : Cqe ℕ)
      → HasEntries got k
      → length s.sq + 2 ≤ k
      → handle got listen_fd s c
        ≡ outcome_of listen_fd s (answer (of_user_data c.user_data) c.res c.flags)
  unfolding submit_answer
  handle-answer k s c room h = go (answer (of_user_data c.user_data) c.res c.flags) refl
    where
      go :
          (o : Option (List Request × List Call))
          → answer (of_user_data c.user_data) c.res c.flags ≡ o
          → handle got listen_fd s c
            ≡ outcome_of listen_fd s (answer (of_user_data c.user_data) c.res c.flags)
      go none e = rw (handle-submit s c, e)
      go (some (rs, cs)) e =
          rw (handle-submit s c, e)
            (submit_all-room k rs cs s room
              (omega (arith, answer-length (of_user_data c.user_data) c.res c.flags e)))
