-- ===== src/Socket/Polling/Once.antt =====
-- socket/socket_poll.cpp: SocketPoll watches no descriptor twice.
use go_socket_client.Prelude.{
  ℕ, ◌≡◌, refl, Bool, true, false, none, List, [], ◌∷◌, arith, if◌then◌else◌,
}
use go_socket_client.Socket.Polling.{Flags, Event, has_fd, change, push_back}
use go_socket_client.Socket.Polling.Poll
use go_socket_client.Socket.Polling.Watched.{
  mask_of, mask_of-absent, mask_of-push_back, AllOnce, Watch, watch_read, watch_write, watch_error,
  poll_watch, poll_watches,
}

change-absent :
    (f : Flags → Flags) (fd other : ℕ) (es : List Event)
    → mask_of other es ≡ none
    → mask_of other (change f fd es) ≡ none
unfolding mask_of change
change-absent f fd other [] h = refl
change-absent f fd other (e ∷ es) h = ground (arith, h, change-absent f fd other es)

change-AllOnce :
    (f : Flags → Flags) (fd : ℕ) (es : List Event) → AllOnce es → AllOnce (change f fd es)
unfolding change
change-AllOnce f fd [] h = tt
change-AllOnce f fd (e ∷ es) h =
    ground (arith, h.0, h.1, change-AllOnce f fd es h.1, change-absent f fd e.fd es h.0)

push_back-AllOnce :
    (new : Event) (es : List Event)
    → mask_of new.fd es ≡ none
    → AllOnce es
    → AllOnce (push_back new es)
unfolding push_back mask_of
push_back-AllOnce new [] h k = (refl, tt)
push_back-AllOnce new (e ∷ es) h k =
    let l : mask_of new.fd es ≡ none = ground (arith, h) in
    (ground (arith, h, k.0, mask_of-push_back new e.fd es l), push_back-AllOnce new es l k.1)

if-AllOnce :
    (b : Bool) (es fs : List Event)
    → AllOnce es
    → (b ≡ false → AllOnce fs)
    → AllOnce (if b then es else fs)
if-AllOnce true es fs h k = h
if-AllOnce false es fs h k = k refl

-- A call on SocketPoll puts in no descriptor that is there.
watched-AllOnce :
    (f : Flags → Flags) (fd : ℕ) (m : Flags) (es : List Event)
    → AllOnce es
    → AllOnce (
        if has_fd fd es
        then change f fd es
        else (if has_fd fd es
            then change (λ old. m) fd es
            else push_back (record { fd = fd; mask = m }) es))
watched-AllOnce f fd m es h = if-AllOnce (has_fd fd es) _ _ (change-AllOnce f fd es h) (λ k.
    if-AllOnce (has_fd fd es) _ _ (change-AllOnce _ fd es h)
      (λ l. push_back-AllOnce _ es (mask_of-absent fd es l) h))

poll_watch-AllOnce : (w : Watch) (es : List Event) → AllOnce es → AllOnce (poll_watch w es)
unfolding poll_watch Poll.read_event Poll.write_event Poll.error_event Poll.add_event
poll_watch-AllOnce (watch_read fd active) es h = watched-AllOnce _ fd _ es h
poll_watch-AllOnce (watch_write fd active) es h = watched-AllOnce _ fd _ es h
poll_watch-AllOnce (watch_error fd active) es h = watched-AllOnce _ fd _ es h

pub poll_watches-AllOnce :
    (ws : List Watch) (es : List Event) → AllOnce es → AllOnce (poll_watches ws es)
unfolding poll_watches
poll_watches-AllOnce [] es h = h
poll_watches-AllOnce (w ∷ ws) es h =
    poll_watches-AllOnce ws (poll_watch w es) (poll_watch-AllOnce w es h)
