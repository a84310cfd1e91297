-- ===== src/Socket/Polling/Agree.antt =====
-- socket/socket_poll.cpp and socket/socket_epoll.cpp: both classes report the same.
use go_socket_client.Prelude.{
  ℕ, ◌≡◌, refl, sym, ap, ◌∙◌, Bool, true, false, ◌||◌, Option, none, some, List, [], ◌∷◌, arith,
  ◌==◌, if◌then◌else◌,
}
use go_socket_client.Socket.Polling.{
  Flags, any_flag, Event, has_fd, push_back, read_fd_is_set, write_fd_is_set, exception_fd_is_set,
}
use go_socket_client.Socket.Polling.Poll
use go_socket_client.Socket.Polling.Epoll
use go_socket_client.Socket.Polling.Once.{poll_watches-AllOnce}
use go_socket_client.Socket.Polling.Watched.{
  mask_of, or_none, AllOnce, Watch, poll_watch, epoll_watch, poll_watches, epoll_watches, fd_of,
  poll_set, epoll_set, poll_watch-Sets, epoll_watch-Sets, watch_read, watch_write, watch_error,
}
use go_socket_client.Socket.Polling.Fired.{
  reported, shown, IsPollAnswer, IsEpollAnswer, poll_events-shown,
}

-- The same bits are asked for.
abbrev pub AgreeMask : Option Flags → Option Flags → Type 0
AgreeMask none none = Unit
AgreeMask none (some n) = false ≡ true
AgreeMask (some m) none = false ≡ true
AgreeMask (some m) (some n) = (m.input ≡ n.input) × (m.output ≡ n.output)

abbrev pub Agree : List Event → List Event → Type 0
Agree ps es = (fd : ℕ) → AgreeMask (mask_of fd ps) (mask_of fd es)

set-AgreeMask :
    (w : Watch) (x y : Option Flags)
    → AgreeMask x y
    → AgreeMask (some (poll_set w (or_none x))) (some (epoll_set w (or_none y)))
set-AgreeMask (watch_read fd active) x y h = ground (arith, h)
set-AgreeMask (watch_write fd active) x y h = ground (arith, h)
set-AgreeMask (watch_error fd active) x y h = ground (arith, h)

if-AgreeMask :
    (b : Bool) (x x' y y' : Option Flags)
    → AgreeMask x y
    → AgreeMask x' y'
    → AgreeMask (if b then x else x') (if b then y else y')
if-AgreeMask true x x' y y' h k = h
if-AgreeMask false x x' y y' h k = k

watch-Agree :
    (w : Watch) (ps es : List Event) → Agree ps es → Agree (poll_watch w ps) (epoll_watch w es)
watch-Agree w ps es h other =
    rw (poll_watch-Sets w ps other, epoll_watch-Sets w es other)
      (if-AgreeMask (fd_of w == other) _ _ _ _ (set-AgreeMask w _ _ (h (fd_of w))) (h other))

watches-Agree :
    (ws : List Watch) (ps es : List Event)
    → Agree ps es
    → Agree (poll_watches ws ps) (epoll_watches ws es)
unfolding poll_watches epoll_watches
watches-Agree [] ps es h = h
watches-Agree (w ∷ ws) ps es h =
    watches-Agree ws (poll_watch w ps) (epoll_watch w es) (watch-Agree w ps es h)

-- Masks that agree are reported alike.
shown-AgreeMask :
    (ready : Flags) (x y : Option Flags) → AgreeMask x y → shown ready x ≡ shown ready y
shown-AgreeMask ready none none h = refl
shown-AgreeMask ready none (some n) h = ground (arith, h)
shown-AgreeMask ready (some m) none h = ground (arith, h)
shown-AgreeMask ready (some m) (some n) h =
    let k : reported ready m ≡ reported ready n = ground (arith, h) in
    ap (λ f. if any_flag f then some f else none) k

abbrev pub read_of : Option Flags → Bool
read_of none = false
read_of (some m) = m.input || m.hup

abbrev pub write_of : Option Flags → Bool
write_of none = false
write_of (some m) = m.output

abbrev pub exception_of : Option Flags → Bool
exception_of none = false
exception_of (some m) = m.err || m.nval

pub read_fd_of : (fd : ℕ) (es : List Event) → read_fd_is_set fd es ≡ read_of (mask_of fd es)
unfolding read_fd_is_set mask_of
read_fd_of fd [] = refl
read_fd_of fd (e ∷ es) = ground (arith, read_fd_of fd es)

pub write_fd_of : (fd : ℕ) (es : List Event) → write_fd_is_set fd es ≡ write_of (mask_of fd es)
unfolding write_fd_is_set mask_of
write_fd_of fd [] = refl
write_fd_of fd (e ∷ es) = ground (arith, write_fd_of fd es)

pub exception_fd_of :
    (fd : ℕ) (es : List Event) → exception_fd_is_set fd es ≡ exception_of (mask_of fd es)
unfolding exception_fd_is_set mask_of
exception_fd_of fd [] = refl
exception_fd_of fd (e ∷ es) = ground (arith, exception_fd_of fd es)

read_fd-mask :
    (fd : ℕ) (es fs : List Event)
    → mask_of fd es ≡ mask_of fd fs
    → read_fd_is_set fd es ≡ read_fd_is_set fd fs
read_fd-mask fd es fs h = read_fd_of fd es ∙ ap read_of h ∙ sym (read_fd_of fd fs)

write_fd-mask :
    (fd : ℕ) (es fs : List Event)
    → mask_of fd es ≡ mask_of fd fs
    → write_fd_is_set fd es ≡ write_fd_is_set fd fs
write_fd-mask fd es fs h = write_fd_of fd es ∙ ap write_of h ∙ sym (write_fd_of fd fs)

exception_fd-mask :
    (fd : ℕ) (es fs : List Event)
    → mask_of fd es ≡ mask_of fd fs
    → exception_fd_is_set fd es ≡ exception_fd_is_set fd fs
exception_fd-mask fd es fs h =
    exception_fd_of fd es ∙ ap exception_of h ∙ sym (exception_fd_of fd fs)

new_events-Agree :
    (breaker_fd : ℕ) → Agree (Poll.new_events breaker_fd) (Epoll.new_events breaker_fd)
unfolding Poll.new_events Epoll.new_events Epoll.read_event has_fd push_back mask_of
new_events-Agree breaker_fd fd = if-AgreeMask (breaker_fd == fd) _ _ _ _ (refl, refl) tt

new_events-AllOnce : (breaker_fd : ℕ) → AllOnce (Poll.new_events breaker_fd)
unfolding Poll.new_events mask_of
new_events-AllOnce breaker_fd = (refl, tt)

-- SocketPoll and SocketEpoll report the same. Whatever the user watches, by the same calls in the same
-- order on a new object of either class: if poll and epoll_wait answer by their manuals from the same
-- state of the descriptors, then ReadFdIsSet, WriteFdIsSet and ExceptionFdIsSet give the same in both
-- for every descriptor that is open.
pub poll_events-Agree :
    (ready : ℕ → Flags) (breaker_fd : ℕ) (ws : List Watch) (ret : ℕ) (revents : ℕ → Flags → Flags)
    (answer : List Event) (fd : ℕ)
    → IsPollAnswer ready (poll_watches ws (Poll.new_events breaker_fd)) ret revents
    → IsEpollAnswer ready (epoll_watches ws (Epoll.new_events breaker_fd)) answer
    → (ready fd).nval ≡ false
    → let ps = Poll.poll_events (some ret) revents (poll_watches ws (Poll.new_events breaker_fd)) in
      let es = Epoll.poll_events (some answer) in
      (read_fd_is_set fd ps ≡ read_fd_is_set fd es)
      × (write_fd_is_set fd ps ≡ write_fd_is_set fd es)
      × (exception_fd_is_set fd ps ≡ exception_fd_is_set fd es)
unfolding Epoll.poll_events
poll_events-Agree ready breaker_fd ws ret revents answer fd h k v =
    let ps = poll_watches ws (Poll.new_events breaker_fd) in
    let es = epoll_watches ws (Epoll.new_events breaker_fd) in
    let qs = Poll.poll_events (some ret) revents ps in
    let once =
      poll_watches-AllOnce ws (Poll.new_events breaker_fd) (new_events-AllOnce breaker_fd) in
    let same : mask_of fd qs ≡ mask_of fd answer =
      poll_events-shown ready ps ret revents fd once h
      ∙ shown-AgreeMask (ready fd) _ _ (
          watches-Agree ws (Poll.new_events breaker_fd) (Epoll.new_events breaker_fd)
            (new_events-Agree breaker_fd) fd)
      ∙ sym (k fd v) in
    (
      read_fd-mask fd qs answer same,
      write_fd-mask fd qs answer same,
      exception_fd-mask fd qs answer same,
    )
