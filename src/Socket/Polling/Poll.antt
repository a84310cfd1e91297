-- ===== src/Socket/Polling/Poll.antt =====
-- socket/socket_poll.cpp: the watched events of SocketPoll.
use go_socket_client.Prelude.{
  ℕ, Bool, true, false, Option, none, some, List, [], ◌∷◌, ◌==◌, if◌then◌else◌,
}
use go_socket_client.Socket.Polling.{Flags, no_flags, any_flag, Event, has_fd, change, push_back}

-- SocketPoll::__AddEvent
unfoldable pub add_event : ℕ → Bool → Bool → Bool → List Event → List Event
add_event fd read write error es =
    let m : Flags = record {
      input = read;
      output = write;
      err = error;
      hup = false;
      nval = error;
    } in
    if has_fd fd es then change (λ old. m) fd es else push_back (record { fd = fd; mask = m }) es

-- SocketPoll::ReadEvent
unfoldable pub read_event : ℕ → Bool → List Event → List Event
read_event fd active es =
    if has_fd fd es
    then change (λ m. record m { input = active }) fd es
    else add_event fd active false false es

-- SocketPoll::WriteEvent
unfoldable pub write_event : ℕ → Bool → List Event → List Event
write_event fd active es =
    if has_fd fd es
    then change (λ m. record m { output = active }) fd es
    else add_event fd false active false es

-- SocketPoll::ErrorEvent
unfoldable pub error_event : ℕ → Bool → List Event → List Event
error_event fd active es =
    if has_fd fd es
    then change (λ m. record m { err = active; nval = active }) fd es
    else add_event fd false false active es

-- The watched events after poll, with `revents` in the place of the mask.
unfoldable pub answered : (ℕ → Flags → Flags) → List Event → List Event
answered revents [] = []
answered revents (e ∷ es) = record { fd = e.fd; mask = revents e.fd e.mask } ∷ answered revents es

-- The loop that keeps what has fired.
unfoldable pub fired : List Event → List Event
fired [] = []
fired (e ∷ es) = let rest = fired es in if any_flag e.mask then e ∷ rest else rest

-- `_pollEvents` after SocketPoll::Poll; `ret` is what poll returned, `none` below 0.
unfoldable pub poll_events : Option ℕ → (ℕ → Flags → Flags) → List Event → List Event
poll_events none revents es = []
poll_events (some ret) revents es = if ret == 0 then [] else fired (answered revents es)

-- The constructor of SocketPoll
unfoldable pub new_events : ℕ → List Event
new_events breaker_fd = record { fd = breaker_fd; mask = record no_flags { input = true } } ∷ []
