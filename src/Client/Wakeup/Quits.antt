-- ===== src/Client/Wakeup/Quits.antt =====
-- tcp_client.cpp: a thread that is to disconnect does nothing else any more.
use go_socket_client.Prelude.{
  ℕ, ◌+◌, ◌≤◌, ◌≡◌, refl, sym, ap, Bool, true, false, ◌++◌, List, [], arith, append-nil,
}
use go_socket_client.Packet.Message.{Message}
use go_socket_client.Client.{Client, not_connect}
use go_socket_client.Client.Wakeup.{
  Place, Holder, connecting, starting, prepared, looking, writing, reading, pinging, nobody,
  telling, breaking_read_write, breaking_connect, selecting, woken, cleared, left, Moment, at,
  clear_breaker, Step, enqueue, enqueue_no_reply, enqueue_disconnect, fire_ping, fire_ping_late,
  Reach, here, later, begin, counts, refuses, opens, fails, connects, prepares, looks, wakes,
  clears, errs, goes_on, gives_up, stays, skips_write, writes, write_fails, skips_read, reads,
  read_fails, skips_ping, pings, ping_fails, ensures, refused, sends, sends_no_reply,
  sends_disconnect, tells, disconnects, breaks_read_write, breaks_connect, ping_fires,
  ping_late_fires, signals, answers_late, gives_up_late,
}
use go_socket_client.Client.Wakeup.Quiet.{has_code}
use go_socket_client.Client.Wakeup.Awake.{IsAwake}
use go_socket_client.Client.Wakeup.NoLoss.{CanStart, Reach-IsAwake, begin-IsAwake}
use go_socket_client.Client.Wakeup.Grows.{
  Grows, Grows-same, Grows-trans, make_sure_connected-Grows, respond_to-Grows, answers_late-Grows,
  notify-Grows, break_read_write-Grows, break_connect-Grows,
}
use go_socket_client.Client.Wakeup.Turns.{rank, rank-left, turns, all_turns, IsKept, AllKept}

module _ {ℓ} {C : Type ℓ} where
  -- What one step does to a moment whose thread is on its way out
  record Nears (m n : Moment C) (k : ℕ) : Type ℓ where
    closer : rank n.place ≡ rank m.place + k
    on_way : rank n.place ≤ 3
    grows : Grows m.client n.client

  stay :
      (m : Moment C) (d : Client C) (h : Holder) (f : Bool)
      → rank m.place ≤ 3
      → Grows m.client d
      → Nears m (record m { client = d; holder = h; firing = f }) 0
  stay m d h f b g = record { closer = ground arith; on_way = b; grows = g }

  near :
      (m : Moment C) (p q : Place) (d : Client C)
      → m.place ≡ p
      → rank q ≡ rank p + 1
      → rank p ≤ 2
      → Grows m.client d
      → Nears m (at q d m) 1
  near m p q d h e b g = record {
    closer = ground (arith, ap rank h, e);
    on_way = ground (arith, e, b);
    grows = g;
  }

  elsewhere :
      (m n : Moment C) (k : ℕ) (q : Place)
      → m.place ≡ q
      → rank q ≡ 4
      → rank m.place ≤ 3
      → Nears m n k
  elsewhere m n k q p e b = absurd (ground (arith, ap rank p, e, b))

  Step-Nears :
      {m n : Moment C} (s : Step m n)
      → m.client.has_thread ≡ true
      → has_code m.client ≡ true
      → IsKept s
      → rank m.place ≤ 3
      → Nears m n (turns s)
  unfolding enqueue enqueue_no_reply enqueue_disconnect clear_breaker fire_ping fire_ping_late
  Step-Nears {m} (counts tick p) t c k b = elsewhere m _ _ connecting p refl b
  Step-Nears {m} (refuses p) t c k b = elsewhere m _ _ connecting p refl b
  Step-Nears {m} (opens p) t c k b = elsewhere m _ _ connecting p refl b
  Step-Nears {m} (fails p) t c k b = elsewhere m _ _ connecting p refl b
  Step-Nears {m} (connects p) t c k b = elsewhere m _ _ connecting p refl b
  Step-Nears {m} (prepares start_tick x p) t c k b = elsewhere m _ _ starting p refl b
  Step-Nears {m} (looks p n) t c k b = elsewhere m _ _ prepared p refl b
  Step-Nears {m} (wakes w p) t c k b =
      near m (selecting w) (woken w) _ p refl (omega arith) (Grows-same m.client _ refl refl)
  Step-Nears {m} (clears w p) t c k b =
      near m (woken w) (cleared w) _ p refl (omega arith) (Grows-same m.client _ refl refl)
  Step-Nears {m} (errs w p) t c k b =
      near m (cleared w) left _ p refl (omega arith) (Grows-same m.client _ refl refl)
  Step-Nears {m} (goes_on w p e) t c k b = absurd (ground (arith, c, e))
  Step-Nears {m} (gives_up w p e) t c k b = elsewhere m _ _ (looking w) p refl b
  Step-Nears {m} (stays w p e) t c k b = elsewhere m _ _ (looking w) p refl b
  Step-Nears {m} (skips_write w p) t c k b = elsewhere m _ _ (writing w) p refl b
  Step-Nears {m} (writes now x rest p e) t c k b = elsewhere m _ _ (writing true) p refl b
  Step-Nears {m} (write_fails p) t c k b = elsewhere m _ _ (writing true) p refl b
  Step-Nears {m} (skips_read p) t c k b = elsewhere m _ _ reading p refl b
  Step-Nears {m} (reads x y p e) t c k b = elsewhere m _ _ reading p refl b
  Step-Nears {m} (read_fails p) t c k b = elsewhere m _ _ reading p refl b
  Step-Nears {m} (skips_ping p e) t c k b = elsewhere m _ _ pinging p refl b
  Step-Nears {m} (pings now p e) t c k b = elsewhere m _ _ pinging p refl b
  Step-Nears {m} (ping_fails p) t c k b = elsewhere m _ _ pinging p refl b
  Step-Nears {m} ensures t c k b =
      stay m _ m.holder m.firing b (make_sure_connected-Grows m.client t)
  Step-Nears {m} (refused func e) t c k b =
      stay m _ m.holder m.firing b (respond_to-Grows func not_connect [] m.client)
  Step-Nears {m} (sends kind payload content func n e) t c k b =
      stay m _ telling m.firing b (record { code_kept = λ x. x; added = _; queue_grows = refl })
  Step-Nears {m} (sends_no_reply kind payload n e) t c k b =
      stay m _ telling m.firing b (record { code_kept = λ x. x; added = _; queue_grows = refl })
  Step-Nears {m} (sends_disconnect n e) t c k b =
      stay m _ telling m.firing b (record { code_kept = λ x. x; added = _; queue_grows = refl })
  Step-Nears {m} (tells h) t c k b = stay m _ nobody m.firing b (notify-Grows true m.client)
  Step-Nears {m} (disconnects code again n e) t c k b =
      stay m _ breaking_read_write m.firing b (record {
        code_kept = λ x. ground (arith, k);
        added = [];
        queue_grows = sym (append-nil m.client.message_queue);
      })
  Step-Nears {m} (breaks_read_write h) t c k b =
      stay m _ breaking_connect m.firing b (break_read_write-Grows true m.client)
  Step-Nears {m} (breaks_connect takes h) t c k b =
      stay m _ nobody m.firing b (break_connect-Grows takes m.client)
  Step-Nears {m} (ping_fires f e) t c k b =
      stay m _ m.holder true b (Grows-same m.client _ refl refl)
  Step-Nears {m} (ping_late_fires f e) t c k b =
      stay m _ m.holder true b (Grows-same m.client _ refl refl)
  Step-Nears {m} (signals f) t c k b = stay m _ m.holder false b (notify-Grows true m.client)
  Step-Nears {m} (answers_late i) t c k b =
      stay m _ m.holder m.firing b (answers_late-Grows i m.client)
  Step-Nears {m} gives_up_late t c k b =
      stay m _ m.holder m.firing b (Grows-same m.client _ refl refl)

  Reach-Nears :
      {m n : Moment C}
      → IsAwake m
      → has_code m.client ≡ true
      → rank m.place ≤ 3
      → (r : Reach m n) → AllKept r
      → Nears m n (all_turns r)
  Reach-Nears {m} a c b here k = record {
    closer = ground arith;
    on_way = b;
    grows = Grows-same m.client _ refl refl;
  }
  Reach-Nears {m} a c b (later {x} {y} r s) k =
      let h = Reach-Nears a c b r k.0 in
      let g = Step-Nears s (Reach-IsAwake a r).threaded (h.grows.code_kept c) k.1 h.on_way in
      record {
        closer = ground (arith, h.closer, g.closer);
        on_way = g.on_way;
        grows = Grows-trans m.client x.client y.client h.grows g.grows;
      }

  -- Let the thread be in the select of its loop and a code for disconnecting be noted, and let the threads
  -- go on in any order, without a call that notes kDisCodeNone. The thread takes at most three steps more,
  -- with the third it has left the loop, the code stays noted, and the messages that were in the queue
  -- are all still its first ones: nothing is written any more.
  pub Reach-leaves :
      (c : Client C) (m n : Moment C) (w : Bool)
      → CanStart c
      → Reach (begin c) m
      → m.place ≡ selecting w
      → has_code m.client ≡ true
      → (r : Reach m n) → AllKept r
      → (all_turns r ≤ 3)
        × (all_turns r ≡ 3 → n.place ≡ left)
        × (has_code n.client ≡ true)
        × ((added : List Message) × (n.client.message_queue ≡ m.client.message_queue ++ added))
  Reach-leaves c m n w s q p h r k =
      let e = ap rank p in
      let g = Reach-Nears (Reach-IsAwake (begin-IsAwake c s) q) h (ground (arith, e)) r k in
      (
        ground (arith, e, g.closer, g.on_way),
        λ x. rank-left n.place (ground (arith, e, g.closer, x)),
        g.grows.code_kept h,
        (g.grows.added, g.grows.queue_grows),
      )
