-- ===== src/Timer/Queue/Cancelled.antt =====
-- common/message_queue.cpp: a callback that was cancelled is not found to run any more.
use go_socket_client.Prelude.{
  ℕ, ◌+◌, ◌≡◌, refl, subst, ◌∙◌, ◌≢◌, ◌⊎◌, inl, inr, true, false, Option, none, some, List, [], ◌∷◌,
  arith, ◌==◌, if◌then◌else◌, ==_iff, Bool-cases, Option-cases,
}
use go_socket_client.Prelude.StdMap.{find, IsSorted, find-put, find-put-ne, put-IsSorted}
use go_socket_client.Timer.Queue.{
  QueueMessage, Queue, insert, post_message, has_id, remove, cancel_message, is_due, is_canceled,
  note, collect, begin_pass, new_message,
}
use go_socket_client.Timer.Queue.Passes.{
  World, Event, calls, post, cancel, start_pass, look_next, call_looked, look, call, about_to,
  start, step, run, Unposted, Once, IsDead,
}

module _ {ℓ} {C : Type ℓ} where
  remove-Once : (i : ℕ) (ms : List (QueueMessage C)) → Once i ms → has_id i (remove i ms) ≡ false
  unfolding has_id remove
  remove-Once i [] h = refl
  remove-Once i (m ∷ ms) h = elim (Bool-cases (m.message_id == i)) [
    | inl e ↦ rw (e) (subst (λ b. if b then (has_id i ms ≡ false) else Once i ms) e h)
    | inr e ↦
        rw (e, e)
          (remove-Once i ms (subst (λ b. if b then (has_id i ms ≡ false) else Once i ms) e h))
  ]

  remove-has_id :
      (i j : ℕ) (ms : List (QueueMessage C)) → has_id i ms ≡ false → has_id i (remove j ms) ≡ false
  unfolding has_id remove
  remove-has_id i j [] h = refl
  remove-has_id i j (m ∷ ms) h = ground (arith, remove-has_id i j ms)

  insert-has_id :
      (i : ℕ) (x : QueueMessage C) (ms : List (QueueMessage C))
      → x.message_id ≢ i
      → has_id i ms ≡ false
      → has_id i (insert x ms) ≡ false
  unfolding has_id insert
  insert-has_id i x [] n h = ground arith
  insert-has_id i x (m ∷ ms) n h = ground (arith, insert-has_id i x ms n)

  note-IsSorted : (cs : List (ℕ × C)) (m : QueueMessage C) → IsSorted cs → IsSorted (note cs m)
  unfolding note
  note-IsSorted cs m h = elim (Option-cases m.callback) [
    | inl e ↦ rw (e) h
    | inr (c, e) ↦ rw (e) (put-IsSorted m.message_id c cs h)
  ]

  note-find :
      (i : ℕ) (cs : List (ℕ × C)) (m : QueueMessage C)
      → m.message_id ≢ i
      → find i cs ≡ none
      → find i (note cs m) ≡ none
  unfolding note
  note-find i cs m n h = elim (Option-cases m.callback) [
    | inl e ↦ rw (e) h
    | inr (c, e) ↦ rw (e, find-put-ne m.message_id i c cs n) h
  ]

  collect-dead :
      (now i : ℕ) (cs : List (ℕ × C)) (ms : List (QueueMessage C))
      → has_id i ms ≡ false
      → find i cs ≡ none
      → IsSorted cs
      → let r = collect now cs ms in (has_id i r.1 ≡ false) × (find i r.0 ≡ none) × IsSorted r.0
  unfolding collect has_id
  collect-dead now i cs [] h n s = (refl, n, s)
  collect-dead now i cs (m ∷ ms) h n s = elim (Bool-cases (is_due now m)) [
    | inl e ↦ rw (e) (
        collect-dead now i (note cs m) ms (ground (arith))
          (note-find i cs m (λ k. ground (arith, k)) n) (note-IsSorted cs m s))
    | inr e ↦ rw (e) (h, n, s)
  ]

  cancel_is_canceled :
      (i j : ℕ) (q : Queue C)
      → ((i ≡ j) ⊎ (is_canceled i q ≡ true))
      → is_canceled i (cancel_message j q).1 ≡ true
  unfolding is_canceled cancel_message
  cancel_is_canceled i j q h = elim (Bool-cases (j == i)) [
    | inl e ↦
        let e' : j ≡ i = (==_iff j i).0 e in rw (e', is_canceled, find-put i true q.canceled) refl
    | inr e ↦ elim h [
      | inl k ↦ ground (arith, k)
      | inr k ↦ rw (is_canceled, find-put-ne j i true q.canceled (λ l. ground (arith, l))) k
    ]
  ]

  find-tail : (i j : ℕ) (c : C) (m : List (ℕ × C)) → find i ((j, c) ∷ m) ≡ none → find i m ≡ none
  unfolding find
  find-tail i j c m h = ground arith

  find-head : (i j : ℕ) (c : C) (m : List (ℕ × C)) → find i ((j, c) ∷ m) ≡ none → (j == i) ≡ false
  unfolding find
  find-head i j c m h = ground arith

  -- The runs of the callback, with the one that is about to come
  abbrev pub total : ℕ → World C → ℕ
  total i w = calls i w.called + about_to i w.looked

  -- A dead callback stays dead, and no step finds it to run.
  Quiet : ℕ → World C → World C → Type ℓ
  Quiet i w w' = IsDead i w' × (total i w' ≡ total i w)

  look-Quiet :
      (i : ℕ) (l : Option ℕ) (ps : List (ℕ × C)) (w : World C)
      → w.looked ≡ l
      → w.pending ≡ ps
      → IsDead i w
      → Quiet i w (look l ps w)
  unfolding look IsDead Quiet
  look-Quiet i (some j) ps w f e d = (d, refl)
  look-Quiet i none [] w f e d = (d, refl)
  look-Quiet i none ((j, c) ∷ ps) w f e d =
      let s : IsSorted ((j, c) ∷ ps) = subst IsSorted e d.2 in
      elim (Bool-cases (is_canceled j w.queue)) [
        | inl k ↦ rw (k) (elim d.1 [
          | inl n ↦ ((d.0, inl (find-tail i j c ps (subst (λ m. find i m ≡ none) e n)), s.1), refl)
          | inr n ↦ ((d.0, inr n, s.1), refl)
        ])
        | inr k ↦ rw (k) (elim d.1 [
          | inl n ↦
              let n' : find i ((j, c) ∷ ps) ≡ none = subst (λ m. find i m ≡ none) e n in
              ((d.0, inl (find-tail i j c ps n'), s.1), rw (f, find-head i j c ps n') refl)
          | inr n ↦ ((d.0, inr n, s.1), ground (arith, f, k, n))
        ])
      ]

  call-Quiet :
      (i : ℕ) (l : Option ℕ) (w : World C) → w.looked ≡ l → IsDead i w → Quiet i w (call l w)
  unfolding call IsDead Quiet
  call-Quiet i none w f d = (d, refl)
  call-Quiet i (some j) w f d = (d, ground (arith, f))

  start-Quiet :
      (now i : ℕ) (l : Option ℕ) (ps : List (ℕ × C)) (w : World C)
      → IsDead i w
      → Quiet i w (start now l ps w)
  unfolding start IsDead Quiet begin_pass
  start-Quiet now i none [] w d =
      let r = collect-dead now i [] w.queue.first d.0 (unfold find in refl) tt in
      ((r.0, inl r.1, r.2), refl)
  start-Quiet now i none (p ∷ ps) w d = (d, refl)
  start-Quiet now i (some j) ps w d = (d, refl)

  post-Quiet :
      (now after_sec i : ℕ) (c : Option C) (w : World C)
      → w.queue.current_id ≢ i
      → IsDead i w
      → Quiet i w (step (post now after_sec c) w)
  unfolding step IsDead Quiet post_message is_canceled
  post-Quiet now after_sec i c w n d =
      ((insert-has_id i (new_message now after_sec c w.queue) w.queue.first n d.0, d.1, d.2), refl)

  cancel-Quiet : (i j : ℕ) (w : World C) → IsDead i w → Quiet i w (step (cancel j) w)
  unfolding step IsDead Quiet cancel_message
  cancel-Quiet i j w d = (
    (
      remove-has_id i j w.queue.first d.0,
      elim d.1 [ inl n ↦ inl n | inr n ↦ inr (cancel_is_canceled i j w.queue (inr n)) ],
      d.2,
    ),
    refl,
  )

  Quiet-trans : (i : ℕ) (u v w : World C) → Quiet i u v → Quiet i v w → Quiet i u w
  unfolding Quiet
  Quiet-trans i u v w q r = (r.0, r.1 ∙ q.1)

  run-Quiet :
      (i : ℕ) (es : List (Event C)) (w : World C)
      → Unposted i es w
      → IsDead i w
      → Quiet i w (run es w)
  unfolding run step Quiet
  run-Quiet i [] w u d = (d, refl)
  run-Quiet i (post now after_sec c ∷ es) w u d =
      let q = post-Quiet now after_sec i c w u.0 d in
      Quiet-trans i w _ _ q (run-Quiet i es _ u.1 q.0)
  run-Quiet i (cancel j ∷ es) w u d =
      let q = cancel-Quiet i j w d in Quiet-trans i w _ _ q (run-Quiet i es _ u q.0)
  run-Quiet i (start_pass now ∷ es) w u d =
      let q = start-Quiet now i w.looked w.pending w d in
      Quiet-trans i w _ _ q (run-Quiet i es _ u q.0)
  run-Quiet i (look_next ∷ es) w u d =
      let q = look-Quiet i w.looked w.pending w refl refl d in
      Quiet-trans i w _ _ q (run-Quiet i es _ u q.0)
  run-Quiet i (call_looked ∷ es) w u d =
      let q = call-Quiet i w.looked w refl d in Quiet-trans i w _ _ q (run-Quiet i es _ u q.0)

  cancel-IsDead :
      (i : ℕ) (w : World C)
      → Once i w.queue.first
      → IsSorted w.pending
      → IsDead i (step (cancel i) w)
  unfolding step IsDead cancel_message
  cancel-IsDead i w o s =
      (remove-Once i w.queue.first o, inr (cancel_is_canceled i i w.queue (inl refl)), s)

  -- After CancelMessage of an id that at most one message of the queue has, the run loop does not find a
  -- callback with that id any more, whether the message was still in the queue or already in the pass:
  -- after any posts, cancellations, passes, looks and calls, the number of its runs, together with the
  -- one that is about to come, is what it was at the CancelMessage. So it runs at most once more, and
  -- only if the loop had looked whether it is cancelled before the CancelMessage and not called it yet;
  -- all this provided that no later PostMessage hands the same id out again.
  pub cancel-run :
      (i : ℕ) (w : World C) (es : List (Event C))
      → Once i w.queue.first
      → IsSorted w.pending
      → Unposted i es (step (cancel i) w)
      → total i (run es (step (cancel i) w)) ≡ total i w
  unfolding Quiet step
  cancel-run i w es o s u = (run-Quiet i es (step (cancel i) w) u (cancel-IsDead i w o s)).1
