-- ===== src/Tests/PollTests.antt =====
-- The theorem on the polls at a concrete input.
use go_socket_client.Prelude.{
  ℕ, ◌≡◌, refl, Bool, true, false, not, ◌&&◌, ◌||◌, some, List, [], ◌∷◌, arith, ◌==◌, if◌then◌else◌,
}
use go_socket_client.Socket.Polling.{
  Flags, no_flags, any_flag, Event, has_fd, change, push_back, read_fd_is_set, write_fd_is_set,
  exception_fd_is_set,
}
use go_socket_client.Socket.Polling.Poll
use go_socket_client.Socket.Polling.Epoll
use go_socket_client.Socket.Polling.Watched.{
  mask_of, Watch, watch_read, watch_write, watch_error, poll_watches, epoll_watches, poll_watch,
  epoll_watch,
}
use go_socket_client.Socket.Polling.Fired.{reported, IsPollAnswer, IsEpollAnswer}
use go_socket_client.Socket.Polling.Agree.{poll_events-Agree}
use go_socket_client.Socket.Polling
use go_socket_client.Socket.Polling.Kqueue
use go_socket_client.Socket.Polling.Kqueue.{
  Filter, read_filter, write_filter, KqueueEvent, is_for, same_filter, set_event, error_event,
}
use go_socket_client.Socket.Polling.Kqueue.Asks.{
  Set, read_set, exception_set, kqueue_sets, as_watches, watches, is_ready, is_any,
}
use go_socket_client.Socket.Polling.Kqueue.Closed.{poll_events-closed}

-- The descriptor 7 is watched for reading, errors and writing, and is readable and hung up.
abbrev calls : List Watch
calls = watch_read 7 true ∷ watch_error 7 true ∷ watch_write 7 true ∷ watch_read 8 true ∷ []

abbrev ready : ℕ → Flags
ready fd = if fd == 7 then record no_flags { input = true; hup = true } else no_flags

abbrev revents : ℕ → Flags → Flags
revents fd m = reported (ready fd) m

abbrev epoll_answer : List Event
epoll_answer = record { fd = 7; mask = record no_flags { input = true; hup = true } } ∷ []

calls-IsPollAnswer : IsPollAnswer ready (poll_watches calls (Poll.new_events 3)) 1 revents
unfolding Poll.answered Poll.new_events poll_watches poll_watch Poll.read_event Poll.write_event
    Poll.error_event Poll.add_event has_fd change push_back any_flag
calls-IsPollAnswer = record { fills = λ fd m. refl; counts = refl }

calls-IsEpollAnswer : IsEpollAnswer ready (epoll_watches calls (Epoll.new_events 3)) epoll_answer
unfolding Epoll.new_events epoll_watches epoll_watch Epoll.read_event Epoll.write_event
    Epoll.error_event has_fd change push_back any_flag mask_of
calls-IsEpollAnswer fd v = ground arith

poll_events-Agree_example :
    let ps = Poll.poll_events (some 1) revents (poll_watches calls (Poll.new_events 3)) in
    let es = Epoll.poll_events (some epoll_answer) in
    (read_fd_is_set 7 ps ≡ read_fd_is_set 7 es)
    × (write_fd_is_set 7 ps ≡ write_fd_is_set 7 es)
    × (exception_fd_is_set 7 ps ≡ exception_fd_is_set 7 es)
poll_events-Agree_example =
    poll_events-Agree ready 3 calls 1 revents epoll_answer 7 calls-IsPollAnswer calls-IsEpollAnswer
      refl

-- The peer of the descriptor 7 has sent something and shut down its direction.
abbrev sets : List Set
sets = read_set 7 ∷ exception_set 7 ∷ []

abbrev last_words : ℕ → Flags
last_words fd = if fd == 7 then record no_flags { input = true } else no_flags

abbrev is_ended : Filter → ℕ → Bool
is_ended f fd = elim f [ read_filter ↦ fd == 7 | write_filter ↦ false ]

abbrev kqueue_answer : List KqueueEvent
kqueue_answer = record { fd = 7; filter = read_filter; error = false; eof = true } ∷ []

abbrev unread : List Event
unread = record { fd = 7; mask = record no_flags { input = true } } ∷ []

sets-reports :
    (f : Filter) (fd : ℕ)
    → is_any f fd kqueue_answer
      ≡ (watches f fd (kqueue_sets sets (Kqueue.new_events 3)) && is_ready f (last_words fd))
unfolding is_any watches is_for same_filter kqueue_sets set_event error_event Kqueue.new_events
sets-reports read_filter fd = ground arith
sets-reports write_filter fd = ground arith

sets-IsEpollAnswer :
    IsEpollAnswer last_words (epoll_watches (as_watches sets) (Epoll.new_events 3)) unread
unfolding Epoll.new_events epoll_watches epoll_watch Epoll.read_event Epoll.write_event
    Epoll.error_event has_fd change push_back any_flag mask_of
sets-IsEpollAnswer fd v = ground arith

poll_events-closed_example :
    let ps = Kqueue.poll_events (some kqueue_answer) in
    let qs = Epoll.poll_events (some unread) in
    (Kqueue.fd_is_set read_filter 7 ps ≡ (read_fd_is_set 7 qs && not (is_ended read_filter 7)))
    × (Kqueue.fd_is_set write_filter 7 ps ≡ (write_fd_is_set 7 qs && not (is_ended write_filter 7)))
    × ((not (Kqueue.exception_fd_is_set 7 ps)
          || ((read_fd_is_set 7 qs && is_ended read_filter 7)
              || (write_fd_is_set 7 qs && is_ended write_filter 7)))
        ≡ true)
    × ((not (
            (read_fd_is_set 7 qs || write_fd_is_set 7 qs)
            && (not (read_fd_is_set 7 qs) || is_ended read_filter 7)
            && (not (write_fd_is_set 7 qs) || is_ended write_filter 7))
          || Kqueue.exception_fd_is_set 7 ps)
        ≡ true)
    × (Polling.exception_fd_is_set 7 qs ≡ false)
poll_events-closed_example =
    poll_events-closed last_words is_ended 3 sets kqueue_answer unread 7
      (record { reports = sets-reports; flags = ((refl, refl), tt) }) sets-IsEpollAnswer refl refl
      refl
