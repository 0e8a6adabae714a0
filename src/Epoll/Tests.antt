-- ===== src/Epoll/Tests.antt =====
-- The checks before the loop, and the theorem at a round of events.
use iowrapper.Base.{◌≡◌, refl, true, false, List, [], ◌∷◌, pos, done, exit, total}
use iowrapper.Epoll.{
  Call, watch, unwatch, shutdown, recv, send, Env, Event, setup, on_accept, on_read, handle,
  handle_each, handle_all,
}
use iowrapper.Epoll.Laws.{sends_on, unwatches, shuts, handle_all-echo}

abbrev good : Env
good = record {
  argc = 2;
  socket = pos 3;
  bind = pos 0;
  listen = pos 0;
  epoll_create = pos 4;
  epoll_add = pos 0;
}

good_lem : setup good ≡ done (watch (pos 3) false ∷ [])
unfolding setup
good_lem = refl

no_port : setup (record good { argc = 1 }) ≡ exit 0
unfolding setup
no_port = refl

-- A connection arrives, another sends nine bytes, and a third has closed.
abbrev events : List Event
events =
    record { fd = 3; accept4 = pos 7; epoll_add = pos 0; received = pos 0 }
    ∷ record { fd = 5; accept4 = pos 0; epoll_add = pos 0; received = pos 9 }
    ∷ record { fd = 6; accept4 = pos 0; epoll_add = pos 0; received = pos 0 }
    ∷ []

abbrev made : List Call
made =
    watch (pos 3) false
    ∷ watch (pos 7) true
    ∷ recv 5 2048
    ∷ send 5 9
    ∷ recv 6 2048
    ∷ unwatch 6
    ∷ shutdown 6
    ∷ []

made_lem : handle_all 3 (pos 3) (watch (pos 3) false ∷ []) events ≡ done made
unfolding handle_all handle_each handle on_accept on_read
made_lem = refl

handle_all-echo_example :
    (total (sends_on 5) made ≡ 9) × (total (unwatches 5) made ≡ 0) × (total (shuts 5) made ≡ 0)
handle_all-echo_example =
    handle_all-echo 3 5 (pos 3) (watch (pos 3) false ∷ []) made events made_lem
