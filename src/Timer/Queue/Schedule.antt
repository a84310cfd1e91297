-- ===== src/Timer/Queue/Schedule.antt =====
-- common/message_queue.cpp: what a pass of the run loop takes, leaves and waits for.
use go_socket_client.Prelude.{
  ℕ, ◌+◌, ◌-◌, ◌*◌, ◌/◌, ◌≤◌, ◌<◌, ◌≡◌, refl, ◌⊎◌, inl, inr, true, false, List, [], ◌∷◌, arith, ltb,
  ◌==◌, if◌then◌else◌, ltb→lt, Bool-cases, All,
}
use go_socket_client.Timer.Queue.{
  QueueMessage, Queue, wait, wait_until, insert, remove, is_due, note, collect, duration_to,
  begin_pass, end_pass, ns_per_ms,
}

module _ {ℓ} {C : Type ℓ} where
  -- The messages stand in the order of their times.
  abbrev pub IsOrdered : List (QueueMessage C) → Type 0
  IsOrdered [] = Unit
  IsOrdered (m ∷ ms) = All (λ x. m.when ≤ x.when) ms × IsOrdered ms

  insert-All :
      (t : ℕ) (m : QueueMessage C) (ms : List (QueueMessage C))
      → t ≤ m.when
      → All (λ x. t ≤ x.when) ms
      → All (λ x. t ≤ x.when) (insert m ms)
  unfolding insert
  insert-All t m [] l a = (l, tt)
  insert-All t m (x ∷ xs) l a = elim (Bool-cases (ltb x.when m.when)) [
    | inl e ↦ rw (e) (a.0, insert-All t m xs l a.1)
    | inr e ↦ rw (e) (l, a)
  ]

  All-later :
      (t u : ℕ) (ms : List (QueueMessage C))
      → t ≤ u
      → All (λ x. u ≤ x.when) ms
      → All (λ x. t ≤ x.when) ms
  All-later t u [] l a = tt
  All-later t u (x ∷ xs) l a = (omega (arith, a.0), All-later t u xs l a.1)

  pub insert-IsOrdered :
      (m : QueueMessage C) (ms : List (QueueMessage C)) → IsOrdered ms → IsOrdered (insert m ms)
  unfolding insert
  insert-IsOrdered m [] h = (tt, tt)
  insert-IsOrdered m (x ∷ xs) h = elim (Bool-cases (ltb x.when m.when)) [
    | inl e ↦ rw (e) (
      insert-All x.when m xs (ground (arith, ltb→lt x.when m.when)) h.0,
      insert-IsOrdered m xs h.1,
    )
    | inr e ↦ rw (e) ((ground arith, All-later m.when x.when xs (ground arith) h.0), h)
  ]

  remove-All :
      (t i : ℕ) (ms : List (QueueMessage C))
      → All (λ x. t ≤ x.when) ms
      → All (λ x. t ≤ x.when) (remove i ms)
  unfolding remove
  remove-All t i [] a = tt
  remove-All t i (x ∷ xs) a = elim (Bool-cases (x.message_id == i)) [
    | inl e ↦ rw (e) a.1
    | inr e ↦ rw (e) (a.0, remove-All t i xs a.1)
  ]

  pub remove-IsOrdered :
      (i : ℕ) (ms : List (QueueMessage C)) → IsOrdered ms → IsOrdered (remove i ms)
  unfolding remove
  remove-IsOrdered i [] h = tt
  remove-IsOrdered i (x ∷ xs) h = elim (Bool-cases (x.message_id == i)) [
    | inl e ↦ rw (e) h.1
    | inr e ↦ rw (e) (remove-All x.when i xs h.0, remove-IsOrdered i xs h.1)
  ]

  -- The messages of a list that are due, the others, and the callbacks of a list.
  abbrev pub due : ℕ → List (QueueMessage C) → List (QueueMessage C)
  due now [] = []
  due now (m ∷ ms) = if is_due now m then (m ∷ due now ms) else due now ms

  abbrev pub not_due : ℕ → List (QueueMessage C) → List (QueueMessage C)
  not_due now [] = []
  not_due now (m ∷ ms) = if is_due now m then not_due now ms else (m ∷ not_due now ms)

  abbrev pub note_all : List (ℕ × C) → List (QueueMessage C) → List (ℕ × C)
  note_all callbacks [] = callbacks
  note_all callbacks (m ∷ ms) = note_all (note callbacks m) ms

  is_due-later :
      (now : ℕ) (m x : QueueMessage C)
      → m.when ≤ x.when
      → is_due now m ≡ false
      → is_due now x ≡ false
  unfolding is_due
  is_due-later now m x l h = ground arith

  -- Behind a message that is not due none is.
  late_tail :
      (now : ℕ) (m : QueueMessage C) (ms : List (QueueMessage C))
      → is_due now m ≡ false
      → All (λ x. m.when ≤ x.when) ms
      → (due now ms ≡ []) × (not_due now ms ≡ ms)
  late_tail now m [] h a = (refl, refl)
  late_tail now m (x ∷ xs) h a =
      rw (is_due-later now m x a.0 h)
        ((late_tail now m xs h a.1).0, rw ((late_tail now m xs h a.1).1) refl)

  collect_lem :
      (now : ℕ) (callbacks : List (ℕ × C)) (ms : List (QueueMessage C))
      → IsOrdered ms
      → collect now callbacks ms ≡ (note_all callbacks (due now ms), not_due now ms)
  unfolding collect
  collect_lem now callbacks [] h = refl
  collect_lem now callbacks (m ∷ ms) h = elim (Bool-cases (is_due now m)) [
    | inl e ↦ rw (e) (collect_lem now (note callbacks m) ms h.1)
    | inr e ↦ rw (e, (late_tail now m ms e h.0).0, (late_tail now m ms e h.0).1) refl
  ]

  -- On a queue in the order of the times, a pass that begins at the time `now` takes the callbacks of
  -- all messages that are due and of no other, and leaves all the others in the queue. It forgets the
  -- cancelled ids and the notification.
  pub begin_pass-due :
      (now : ℕ) (q : Queue C)
      → IsOrdered q.first
      → ((begin_pass now q).0.callbacks ≡ note_all [] (due now q.first))
        × ((begin_pass now q).1
            ≡ record q { first = not_due now q.first; canceled = []; has_post = false })
  unfolding begin_pass
  begin_pass-due now q h = rw (collect_lem now [] q.first h) (refl, refl)

  -- The front of the rest is not due.
  collect-front :
      (now : ℕ) (callbacks : List (ℕ × C)) (ms : List (QueueMessage C))
      → ((collect now callbacks ms).1 ≡ [])
        ⊎ ((m : QueueMessage C) × (rest : List (QueueMessage C)) × ((collect now callbacks ms).1
              ≡ m ∷ rest)
            × (is_due now m ≡ false))
  unfolding collect
  collect-front now callbacks [] = inl refl
  collect-front now callbacks (m ∷ ms) = elim (Bool-cases (is_due now m)) [
    | inl e ↦ rw (e) (collect-front now (note callbacks m) ms)
    | inr e ↦ rw (e) (inr (m, ms, refl, e))
  ]

  wake :
      (now : ℕ) (m : QueueMessage C)
      → is_due now m ≡ false
      → let t = now + (m.when - now) / ns_per_ms * ns_per_ms in
        (((m.when - now) / ns_per_ms == 0) ≡ false) × (now < t) × (t ≤ m.when) × (is_due t m ≡ true)
  unfolding is_due
  wake now m h = ground arith

  -- After a pass during which nobody posted or cancelled, the loop waits for a notification only if the
  -- queue is empty. Otherwise it waits until a later time that is not after the time of the first message, and
  -- at which that message is due.
  pub end_pass-wakes :
      (now : ℕ) (q : Queue C)
      → let r = begin_pass now q in
        ((r.1.first ≡ []) × ((end_pass r.0 r.1).0 ≡ wait))
        ⊎ ((m : QueueMessage C) × (rest : List (QueueMessage C)) × (t : ℕ) × (r.1.first ≡ m ∷ rest)
            × ((end_pass r.0 r.1).0 ≡ wait_until t)
            × (now < t)
            × (t ≤ m.when)
            × (is_due t m ≡ true))
  unfolding begin_pass end_pass duration_to
  end_pass-wakes now q = elim (collect-front now [] q.first) [
    | inl e ↦ inl (rw (e) (refl, refl))
    | inr (m, rest, e, h) ↦
        let w = wake now m h in
        inr (
          m,
          rest,
          now + (m.when - now) / ns_per_ms * ns_per_ms,
          e,
          rw (e, w.0) refl,
          w.1,
          w.2,
          w.3,
        )
  ]
