-- ===== src/Socket/Polling/Kqueue/Closed.antt =====
-- socket/socket_kqueue.cpp and socket/socket_epoll.cpp: where the two back ends differ.
use go_socket_client.Prelude.{
  ℕ, ◌≡◌, refl, sym, ap, subst, ◌∙◌, Bool, true, false, ◌==◌, ==_iff, if◌then◌else◌, not, ◌&&◌,
  ◌||◌, Option, none, some, List, [], ◌∷◌, arith, All,
}
use go_socket_client.Socket.Polling.{Flags, any_flag, Event, read_fd_is_set, write_fd_is_set}
use go_socket_client.Socket.Polling
use go_socket_client.Socket.Polling.Epoll
use go_socket_client.Socket.Polling.Watched.{mask_of, or_none, epoll_watches}
use go_socket_client.Socket.Polling.Fired.{shown, IsEpollAnswer}
use go_socket_client.Socket.Polling.Agree.{
  read_of, write_of, exception_of, read_fd_of, write_fd_of, exception_fd_of,
}
use go_socket_client.Socket.Polling.Kqueue.{
  Filter, read_filter, write_filter, same_filter, KqueueEvent, new_events, fd_is_set,
  exception_fd_is_set, poll_events,
}
use go_socket_client.Socket.Polling.Kqueue.Asks.{
  Set, kqueue_sets, as_watches, is_ready, is_any, IsKqueueAnswer, sets-Asks, new_events-Asks,
}

same_filter-eq : (f g : Filter) → same_filter f g ≡ true → f ≡ g
unfolding same_filter
same_filter-eq read_filter read_filter h = refl
same_filter-eq read_filter write_filter h = ground (arith, h)
same_filter-eq write_filter read_filter h = ground (arith, h)
same_filter-eq write_filter write_filter h = refl

some_filter : (g : Filter) → (same_filter read_filter g || same_filter write_filter g) ≡ true
unfolding same_filter
some_filter read_filter = refl
some_filter write_filter = refl

-- The events carry EV_EOF where the filter is at its end, and no EV_ERROR.
abbrev AtEnds : (Filter → ℕ → Bool) → KqueueEvent → Type 0
AtEnds at_end e = (e.error ≡ false) × (e.eof ≡ at_end e.filter e.fd)

eof_of :
    (at_end : Filter → ℕ → Bool) (f : Filter) (fd : ℕ) (e : KqueueEvent)
    → e.eof ≡ at_end e.filter e.fd
    → (e.fd == fd) ≡ true
    → same_filter f e.filter ≡ true
    → e.eof ≡ at_end f fd
eof_of at_end f fd e h p q =
    h
    ∙ ap (λ g. at_end g e.fd) (sym (same_filter-eq f e.filter q))
    ∙ ap (at_end f) ((==_iff e.fd fd).0 p)

one_event :
    (b err eof s a r y : Bool)
    → err ≡ false
    → (b ≡ true → s ≡ true → eof ≡ a)
    → r ≡ (y && not a)
    → ((b && not err && not eof && s) || r) ≡ (((b && s) || y) && not a)
one_event true err eof true a r y h k l = ground (arith, h, k refl refl, l)
one_event true err eof false a r y h k l = ground (arith, l)
one_event false err eof s a r y h k l = ground (arith, l)

fd_is_set-is_any :
    (at_end : Filter → ℕ → Bool) (f : Filter) (fd : ℕ) (es : List KqueueEvent)
    → All (AtEnds at_end) es
    → fd_is_set f fd es ≡ (is_any f fd es && not (at_end f fd))
unfolding fd_is_set is_any
fd_is_set-is_any at_end f fd [] h = refl
fd_is_set-is_any at_end f fd (e ∷ es) h =
    one_event (e.fd == fd) e.error e.eof (same_filter f e.filter) (at_end f fd) (fd_is_set f fd es)
      (is_any f fd es) h.0.0 (eof_of at_end f fd e h.0.1) (fd_is_set-is_any at_end f fd es h.1)

-- An exception comes of a filter that is ready and at its end, and it comes if any filter is ready and
-- all that are ready are at their ends.
abbrev Tells : Bool → Bool → Bool → Bool → Bool → Type 0
Tells x r r_end w w_end =
    (x ≡ true → ((r && r_end) || (w && w_end)) ≡ true)
    × (((r || w) && (not r || r_end) && (not w || w_end)) ≡ true → x ≡ true)

one_exception :
    (b eof sr sw er ew yr yw x : Bool)
    → (b ≡ true → sr ≡ true → eof ≡ er)
    → (b ≡ true → sw ≡ true → eof ≡ ew)
    → (sr || sw) ≡ true
    → Tells x yr er yw ew
    → Tells (if b then eof else x) ((b && sr) || yr) er ((b && sw) || yw) ew
one_exception false eof sr sw er ew yr yw x p q h t = t
one_exception true eof true sw er ew yr yw x p q h t =
    (λ k. ground (arith, p refl refl, k), λ k. ground (arith, p refl refl, k))
one_exception true eof false true er ew yr yw x p q h t =
    (λ k. ground (arith, q refl refl, k), λ k. ground (arith, q refl refl, k))
one_exception true eof false false er ew yr yw x p q h t = ground (arith, h)

exception-is_any :
    (at_end : Filter → ℕ → Bool) (fd : ℕ) (es : List KqueueEvent)
    → All (AtEnds at_end) es
    → Tells
        (exception_fd_is_set fd es)
        (is_any read_filter fd es)
        (at_end read_filter fd)
        (is_any write_filter fd es)
        (at_end write_filter fd)
unfolding exception_fd_is_set is_any
exception-is_any at_end fd [] h = (λ k. ground (arith, k), λ k. ground (arith, k))
exception-is_any at_end fd (e ∷ es) h =
    let n = ap (λ b. b || e.eof) h.0.0 in
    one_exception (e.fd == fd) (e.error || e.eof) (same_filter read_filter e.filter)
      (same_filter write_filter e.filter) (at_end read_filter fd) (at_end write_filter fd) _ _ _
      (λ p q. n ∙ eof_of at_end read_filter fd e h.0.1 p q)
      (λ p q. n ∙ eof_of at_end write_filter fd e h.0.1 p q) (some_filter e.filter)
      (exception-is_any at_end fd es h.1)

implied : (a b : Bool) → (a ≡ true → b ≡ true) → (not a || b) ≡ true
implied true b h = h refl
implied false b h = refl

-- What epoll reports of a descriptor without errors and not hung up
shown-read :
    (m : Flags) (o : Option Flags)
    → m.err ≡ false
    → m.hup ≡ false
    → m.nval ≡ false
    → (read_of (shown m o) ≡ (is_ready read_filter (or_none o) && m.input))
      × (write_of (shown m o) ≡ (is_ready write_filter (or_none o) && m.output))
      × (exception_of (shown m o) ≡ false)
unfolding any_flag
shown-read m none e h v = (refl, refl, refl)
shown-read m (some o) e h v =
    (ground (arith, e, h, v), ground (arith, e, h, v), ground (arith, e, h, v))

-- SocketKqueue and SocketEpoll differ once a direction has ended. After the same calls of SocketSelect on
-- a new object of either, and answers of kevent and epoll_wait that are what their manuals say of the
-- same state, in which the descriptor has no error and is not hung up, and each of the two filters may be
-- at its end or not: SocketKqueue reports the descriptor readable exactly when SocketEpoll does and the
-- read filter is not at its end, and writable likewise. It reports an exception only if SocketEpoll
-- reports the descriptor readable or writable in a direction that is at its end, and does so whenever
-- SocketEpoll reports some direction and all that it reports are at their ends. SocketEpoll reports none.
pub poll_events-closed :
    (ready : ℕ → Flags) (at_end : Filter → ℕ → Bool) (breaker_fd : ℕ) (ws : List Set)
    (ks : List KqueueEvent) (es : List Event) (fd : ℕ)
    → IsKqueueAnswer ready at_end (kqueue_sets ws (new_events breaker_fd)) ks
    → IsEpollAnswer ready (epoll_watches (as_watches ws) (Epoll.new_events breaker_fd)) es
    → (ready fd).err ≡ false
    → (ready fd).hup ≡ false
    → (ready fd).nval ≡ false
    → let ps = poll_events (some ks) in
      let qs = Epoll.poll_events (some es) in
      (fd_is_set read_filter fd ps ≡ (read_fd_is_set fd qs && not (at_end read_filter fd)))
      × (fd_is_set write_filter fd ps ≡ (write_fd_is_set fd qs && not (at_end write_filter fd)))
      × ((not (exception_fd_is_set fd ps)
            || ((read_fd_is_set fd qs && at_end read_filter fd)
                || (write_fd_is_set fd qs && at_end write_filter fd)))
          ≡ true)
      × ((not (
              (read_fd_is_set fd qs || write_fd_is_set fd qs)
              && (not (read_fd_is_set fd qs) || at_end read_filter fd)
              && (not (write_fd_is_set fd qs) || at_end write_filter fd))
            || exception_fd_is_set fd ps)
          ≡ true)
      × (Polling.exception_fd_is_set fd qs ≡ false)
unfolding poll_events Epoll.poll_events
poll_events-closed ready at_end breaker_fd ws ks es fd k e a h v =
    let ps = epoll_watches (as_watches ws) (Epoll.new_events breaker_fd) in
    let asks =
      sets-Asks ws (new_events breaker_fd) (Epoll.new_events breaker_fd)
        (new_events-Asks breaker_fd) in
    let s = shown-read (ready fd) (mask_of fd ps) a h v in
    let m = e fd v in
    let r : is_any read_filter fd ks ≡ read_fd_is_set fd es =
      k.reports read_filter fd
      ∙ ap (λ b. b && (ready fd).input) (asks read_filter fd)
      ∙ sym (read_fd_of fd es ∙ ap read_of m ∙ s.0) in
    let w : is_any write_filter fd ks ≡ write_fd_is_set fd es =
      k.reports write_filter fd
      ∙ ap (λ b. b && (ready fd).output) (asks write_filter fd)
      ∙ sym (write_fd_of fd es ∙ ap write_of m ∙ s.1) in
    let t : Tells (exception_fd_is_set fd ks) (read_fd_is_set fd es) (at_end read_filter fd)
        (write_fd_is_set fd es) (at_end write_filter fd) =
      subst
        (λ b.
          Tells (exception_fd_is_set fd ks) b (at_end read_filter fd) (write_fd_is_set fd es)
            (at_end write_filter fd))
        r
        (subst
          (λ b.
            Tells (exception_fd_is_set fd ks) (is_any read_filter fd ks) (at_end read_filter fd) b
              (at_end write_filter fd))
          w (exception-is_any at_end fd ks k.flags)) in
    (
      fd_is_set-is_any at_end read_filter fd ks k.flags
          ∙ ap (λ b. b && not (at_end read_filter fd)) r,
      fd_is_set-is_any at_end write_filter fd ks k.flags
          ∙ ap (λ b. b && not (at_end write_filter fd)) w,
      implied _ _ t.0,
      implied _ _ t.1,
      exception_fd_of fd es ∙ ap exception_of m ∙ s.2,
    )
