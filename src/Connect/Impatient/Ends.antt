-- ===== src/Connect/Impatient/Ends.antt =====
-- connect/complex_connect.cpp: the loop of ConnectImpatient ends.
use go_socket_client.Prelude.{
  ℕ, zero, suc, ◌+◌, ◌*◌, ◌≤◌, ◌<◌, ◌≡◌, refl, ◌⊎◌, inl, inr, Bool, true, false, ◌||◌, Option, none,
  some, List, [], ◌∷◌, arith, if◌then◌else◌, Bool-cases, length,
}
use go_socket_client.Connect.Dns.{AddrInfo}
use go_socket_client.Connect.Connector.{Connector}
use go_socket_client.Connect.Impatient.{
  Settings, Round, Attempts, Looped, again, ended, sockets_of, running, pre_all, after_all,
  all_invalid, leave, finish_turn, is_next_due, may_start, has_room, start_next, prepare, conclude,
  loop_turn, loop, connectors_of, connect_impatient,
}
use go_socket_client.Connect.Impatient.Shape.{Shape}
use go_socket_client.Connect.Impatient.Sockets.{
  IsSteady, IsSteadyAt, loop_turn-IsSteadyAt, connect_impatient-IsSteadyAt,
}
use go_socket_client.Connect.Impatient.Ranks.{AllLong, total, after_all-total, after_all-next}

-- When every connector has been begun, and not all are gone, one has a socket.
busy-running :
    (n : ℕ) (xs : List (Option Connector))
    → Shape n xs
    → length xs ≤ n
    → all_invalid xs ≡ false
    → 1 ≤ running xs
unfolding running sockets_of all_invalid
busy-running n [] h l b = ground (arith, b)
busy-running zero (x ∷ xs) h l b = omega (arith, l)
busy-running (suc n) (none ∷ xs) h l b = omega (arith, busy-running n xs h.1 (omega (arith, l)) b)
busy-running (suc n) (some c ∷ xs) h l b = ground (arith, h.0)

-- A turn that lasts past the timeout of every connector at work, in which the time for the next
-- address has come and no SSL_connect succeeds at once.
pub record IsLongTurn (o : Settings) (r : Round) (s : Attempts) : Type 0 where
  pub due : is_next_due o r.cur s ≡ true
  pub all_long : AllLong r.before r.after 0 s.index s.connectors

abbrev pub LongTurns : Settings → List Round → Looped → Type 0
LongTurns o [] x = Unit
LongTurns o (r ∷ rs) (ended winner s) = Unit
LongTurns o (r ∷ rs) (again s) = IsLongTurn o r s × LongTurns o rs (loop_turn o r s)

abbrev pub IsEnded : Looped → Type 0
IsEnded (again s) = false ≡ true
IsEnded (ended winner s) = Unit

-- If the loop goes on, then with connectors that are left and less rank than `k`.
abbrev pub DropsBelow : ℕ → Looped → Type 0
DropsBelow k (again s) = (all_invalid s.connectors ≡ false) × (total s.connectors + 1 ≤ k)
DropsBelow k (ended winner s) = Unit

finish_turn-DropsBelow :
    (k : ℕ) (winner : Option ℕ) (s : Attempts)
    → (winner ≡ none → total s.connectors + 1 ≤ k)
    → DropsBelow k (finish_turn winner s)
unfolding finish_turn leave
finish_turn-DropsBelow k none s h = elim (Bool-cases (all_invalid s.connectors)) [
  | inl e ↦ rw e tt
  | inr e ↦ rw e (e, h refl)
]
finish_turn-DropsBelow k (some i) s h = tt

conclude-DropsBelow :
    (k : ℕ) (r : Round) (s : Attempts)
    → (let w = after_all r.after 0 s.index (pre_all r.before 0 s.index s.connectors) in
        w.winner ≡ none → total w.left + 1 ≤ k)
    → DropsBelow k (conclude r (prepare r s))
unfolding conclude prepare
conclude-DropsBelow k r s h = finish_turn-DropsBelow k _ _ h

at_work :
    (o : Settings) (s : Attempts)
    → IsSteady o s
    → 1 ≤ o.max_connect
    → all_invalid s.connectors ≡ false
    → (length s.connectors ≤ s.index) ⊎ (o.max_connect ≤ running s.connectors)
    → 1 ≤ running s.connectors
at_work o s h m b (inl e) = busy-running s.index s.connectors h.shape e b
at_work o s h m b (inr e) = omega (arith, m, e)

may_start-more :
    (o : Settings) (cur : ℕ) (s : Attempts)
    → may_start o cur s ≡ true
    → s.index < length s.connectors
unfolding may_start has_room
may_start-more o cur s e = ground (arith, e)

may_start-not :
    (o : Settings) (cur : ℕ) (s : Attempts)
    → may_start o cur s ≡ false
    → is_next_due o cur s ≡ true
    → (length s.connectors ≤ s.index) ⊎ (o.max_connect ≤ running s.connectors)
unfolding may_start has_room
may_start-not o cur s e d = ground (arith, e, d)

conclude_if :
    (k : ℕ) (r : Round) (b : Bool) (s t : Attempts)
    → (b ≡ true → DropsBelow k (conclude r (prepare r t)))
    → (b ≡ false → DropsBelow k (conclude r (prepare r s)))
    → DropsBelow k (conclude r (prepare r (if b then t else s)))
conclude_if k r true s t h l = h refl
conclude_if k r false s t h l = l refl

end_if :
    (k : ℕ) (b : Bool) (x y : Looped)
    → DropsBelow k x
    → DropsBelow k y
    → DropsBelow k (if b then x else y)
end_if k true x y h l = h
end_if k false x y h l = l

loop_turn-DropsBelow :
    (o : Settings) (r : Round) (s : Attempts)
    → IsSteady o s
    → 1 ≤ o.max_connect
    → all_invalid s.connectors ≡ false
    → IsLongTurn o r s
    → DropsBelow (total s.connectors) (loop_turn o r s)
unfolding loop_turn start_next leave
loop_turn-DropsBelow o r s h m b l =
    end_if (total s.connectors) (r.select_failed || r.breaker_exception || r.is_break) _ _ tt (
      conclude_if (total s.connectors) r (may_start o r.cur s) s _
        (λ e. conclude-DropsBelow (total s.connectors) r _ (λ w.
          after_all-next r.before r.after 0 s.index s.connectors h.shape l.all_long
            (may_start-more o r.cur s e) w))
        (λ e. conclude-DropsBelow (total s.connectors) r s (λ w. omega (
          arith,
          after_all-total r.before r.after 0 s.index s.connectors h.shape l.all_long w,
          at_work o s h m b (may_start-not o r.cur s e l.due),
        ))))

loop-IsEnded :
    (o : Settings) (rs : List Round) (x : Looped) (k : ℕ)
    → IsSteadyAt o x
    → DropsBelow k x
    → 1 ≤ o.max_connect
    → LongTurns o rs x
    → k ≤ length rs
    → IsEnded (loop o rs x)
unfolding loop
loop-IsEnded o [] (ended winner s) k h d m l f = tt
loop-IsEnded o (r ∷ rs) (ended winner s) k h d m l f = tt
loop-IsEnded o [] (again s) k h d m l f = ground (arith, d.1, f)
loop-IsEnded o (r ∷ rs) (again s) k h d m l f =
    loop-IsEnded o rs (loop_turn o r s) (total s.connectors) (loop_turn-IsSteadyAt o r s h)
      (loop_turn-DropsBelow o r s h m d.0 l.0) m l.1 (omega (arith, d.1, f))

connectors_of-total :
    (timeout : ℕ) (addrs : List AddrInfo) → total (connectors_of timeout addrs) ≡ 4 * length addrs
unfolding connectors_of
connectors_of-total timeout [] = refl
connectors_of-total timeout (a ∷ addrs) = omega (arith, connectors_of-total timeout addrs)

-- If ConnectImpatient may have an attempt at work at all, then more than four turns for each address,
-- each of which lasts past the timeouts of the connectors at work, comes when the next address is due
-- and has no SSL_connect that succeeds at once, are enough: the function returns.
pub connect_impatient-IsEnded :
    (o : Settings) (tick : ℕ) (addrs : List AddrInfo) (rs : List Round)
    → 1 ≤ o.max_connect
    → LongTurns o rs (connect_impatient o tick addrs [])
    → 4 * length addrs < length rs
    → IsEnded (connect_impatient o tick addrs rs)
unfolding connect_impatient loop connectors_of all_invalid
connect_impatient-IsEnded o tick [] rs m l f = tt
connect_impatient-IsEnded o tick (a ∷ addrs) rs m l f =
    let k = connect_impatient-IsSteadyAt o tick (a ∷ addrs) [] in
    loop-IsEnded o rs _ (4 * length (a ∷ addrs) + 1) k
      (refl, omega (arith, connectors_of-total o.timeout addrs)) m l (omega (arith, f))
