-- ===== src/Demos/WatchRing/Tests.antt =====
-- The theorem on the two epoll demos at a concrete round.
use iowrapper.Base.{ℕ, ◌≡◌, refl, Bool, true, false, List, [], ◌∷◌, pos, done}
use iowrapper.Demos.Watch.{watch, unwatch, shutdown, receives, sends, Event}
use iowrapper.Demos.Watch
use iowrapper.Demos.WatchRing.{Op, made, handle_all}
use iowrapper.Demos.WatchRing.Laws.{as_calls, calls_of, handle_all-calls}

abbrev plenty : ℕ → Bool
plenty n = true

-- A client connects as descriptor 5, sends 10 bytes, and leaves.
abbrev events : List Event
events =
    record {
      fd = 3;
      err = false;
      hup = false;
      accepted = pos 5;
      epoll_add = pos 0;
      received = pos 0;
      sent = pos 0;
    }
    ∷ record {
      fd = 5;
      err = false;
      hup = false;
      accepted = pos 0;
      epoll_add = pos 0;
      received = pos 10;
      sent = pos 10;
    }
    ∷ record {
      fd = 5;
      err = false;
      hup = false;
      accepted = pos 0;
      epoll_add = pos 0;
      received = pos 0;
      sent = pos 0;
    }
    ∷ []

abbrev before : List Op
before = made (watch (pos 3)) ∷ []

handle_all-calls_example :
    as_calls (handle_all plenty 0 3 (pos 3) before events)
    ≡ Watch.handle_all 3 (pos 3) (calls_of before) events
handle_all-calls_example = handle_all-calls plenty 0 3 refl (pos 3) before events

-- The connection is taken off the watch and shut down, and stays open.
never_closed :
    Watch.handle_all 3 (pos 3) [] events
    ≡ done (
        watch (pos 5)
        ∷ receives 5 1023
        ∷ sends 5 10
        ∷ receives 5 1023
        ∷ unwatch 5
        ∷ shutdown 5
        ∷ [])
unfolding Watch.handle_all Watch.handle_each Watch.handle Watch.on_data
never_closed = refl
