-- ===== src/Client/Calls/Answered.antt =====
-- tcp_client.cpp: a request's callback is called once, by the response, the timeout or the loss of the
-- connection, whichever comes first.
use go_socket_client.Prelude.{
  ℕ, ◌<◌, ◌≡◌, refl, sym, ap, ◌∙◌, Bool, true, false, Option, none, some, List, [], ◌∷◌, ◌++◌,
  arith, append-nil, append_assoc, All,
}
use go_socket_client.Prelude.StdMap.{find, erase, keys, IsSorted, find-erase, find-erase-ne}
use go_socket_client.Packet.Message.{SendResp}
use go_socket_client.Client.{Alarm, Client, Effect, respond, no_error, timeout, lose_connect}
use go_socket_client.Client.Calls.{
  answer, stop_timeout, handle_send_resp, on_send_late, lose_all, stop_all, wait_disconnect,
  renew_breakers,
}
use go_socket_client.Client.Calls.Found.{
  get_callback-some, get_callback-none, answer-some, answer-none, stop_timeout-none, Stopped,
  stop_timeout-Stopped, drop_timeout-none,
}

module _ {ℓ} {C : Type ℓ} where
  -- A response to a request whose callback is in the map calls it with the response's payload and
  -- takes it out of the map together with its alarm. A second response with the same id then does
  -- nothing at all. The two maps have increasing keys, as a std::map has.
  pub handle_send_resp-twice :
      (m n : SendResp) (f : C) (c : Client C)
      → find m.message_id c.callback_map ≡ some (some f)
      → n.message_id ≡ m.message_id
      → IsSorted c.callback_map
      → IsSorted c.timeout_alarms
      → let d = handle_send_resp m c in
        (d.effects ≡ c.effects ++ (respond f no_error m.payload ∷ []))
        × (find m.message_id d.callback_map ≡ none)
        × (find m.message_id d.timeout_alarms ≡ none)
        × (handle_send_resp n d ≡ d)
  unfolding handle_send_resp Stopped
  handle_send_resp-twice m n f c h e s t =
      let k = stop_timeout-Stopped m.message_id c t in
      let h' : find m.message_id (stop_timeout m.message_id c).callback_map ≡ some (some f) =
        rw (k.0) h in
      let a = answer-some m.message_id no_error m.payload f (stop_timeout m.message_id c) h' in
      let d = handle_send_resp m c in
      let gone : find m.message_id d.callback_map ≡ none =
        rw (a, k.0) (find-erase m.message_id c.callback_map s) in
      let quiet : find m.message_id d.timeout_alarms ≡ none = rw (a) k.2 in
      (
        rw (a, k.1) refl,
        gone,
        quiet,
        rw (e) (
            rw (stop_timeout-none m.message_id d quiet)
              (answer-none m.message_id no_error n.payload d gone)),
      )

  -- A timeout of a request that is answered changes nothing.
  pub on_send_late-answered :
      (writes conn_writes : Bool) (i : ℕ) (c : Client C)
      → find i c.callback_map ≡ none
      → find i c.timeout_alarms ≡ none
      → on_send_late writes conn_writes i c ≡ c
  unfolding on_send_late
  on_send_late-answered writes conn_writes i c h t =
      rw
        (
          on_send_late,
          drop_timeout-none i c t,
          get_callback-none i c h,
          drop_timeout-none i c t,
          answer-none i timeout [] c h,
        )
        refl

  handle_send_resp-answered :
      (m : SendResp) (c : Client C)
      → find m.message_id c.callback_map ≡ none
      → find m.message_id c.timeout_alarms ≡ none
      → handle_send_resp m c ≡ c
  unfolding handle_send_resp
  handle_send_resp-answered m c h t =
      rw (stop_timeout-none m.message_id c t) (answer-none m.message_id no_error m.payload c h)

  -- An id without a callback ends the loop of __WaitDisconnect at once.
  lose_all-stops :
      (i : ℕ) (is js : List ℕ) (c : Client C)
      → js ≡ i ∷ is
      → find i c.callback_map ≡ none
      → lose_all js c ≡ (false, c)
  unfolding lose_all
  lose_all-stops i is js c e h =
      rw (e, lose_all, get_callback-none i c h, get_callback-none i c h) refl

  wait_disconnect-eq :
      (made conn_made : Bool) (i : ℕ) (a : Alarm) (alarms : List (ℕ × Alarm)) (c : Client C)
      → c.has_thread ≡ true
      → c.timeout_alarms ≡ (i, a) ∷ alarms
      → find i (stop_all c).callback_map ≡ none
      → wait_disconnect made conn_made c ≡ stop_all c
  unfolding wait_disconnect lose_all stop_all
  wait_disconnect-eq made conn_made i a alarms c t e h =
      rw
        (
          wait_disconnect,
          t,
          lose_all-stops i (keys alarms) (keys c.timeout_alarms) (stop_all c) (ap keys e) h,
        )
        refl

  -- If the first alarm that waits belongs to an id without a callback, as that of a SendNoReply does,
  -- whose id 0 stands before all others, then __WaitDisconnect calls none of the callbacks of the other
  -- requests, keeps all of them in the map, and does not make a breaker anew that has failed, although
  -- it has cancelled and forgotten all alarms.
  pub wait_disconnect-stops :
      (made conn_made : Bool) (i : ℕ) (a : Alarm) (alarms : List (ℕ × Alarm)) (c : Client C)
      → c.has_thread ≡ true
      → c.timeout_alarms ≡ (i, a) ∷ alarms
      → find i c.callback_map ≡ none
      → let d = wait_disconnect made conn_made c in
        (d.effects ≡ c.effects)
        × (d.callback_map ≡ c.callback_map)
        × (d.timeout_alarms ≡ [])
        × (d.read_write_breaker ≡ c.read_write_breaker)
        × (d.connect_breaker ≡ c.connect_breaker)
  unfolding stop_all
  wait_disconnect-stops made conn_made i a alarms c t e h =
      rw (wait_disconnect-eq made conn_made i a alarms c t e h) (refl, refl, refl, refl, refl)

  -- The responses that the loss of the connection makes, one for each id.
  abbrev pub lost : List (ℕ × C) → List (Effect C)
  lost [] = []
  lost ((i, f) ∷ fs) = respond f lose_connect [] ∷ lost fs

  -- Each id of the list has its callback in the map.
  abbrev pub HasAll : List (ℕ × C) → List (ℕ × Option C) → Type ℓ
  HasAll [] m = Unit
  HasAll ((i, f) ∷ fs) m = (find i m ≡ some (some f)) × HasAll fs m

  HasAll-erase :
      (i : ℕ) (fs : List (ℕ × C)) (m : List (ℕ × Option C))
      → All (λ j. i < j) (keys fs)
      → HasAll fs m
      → HasAll fs (erase i m)
  HasAll-erase i [] m a h = tt
  HasAll-erase i ((j, f) ∷ fs) m a h =
      (rw (find-erase-ne i j m (λ e. omega (arith, a.0, e))) h.0, HasAll-erase i fs m a.1 h.1)

  lose_all-answers :
      (fs : List (ℕ × C)) (c : Client C)
      → IsSorted fs
      → HasAll fs c.callback_map
      → ((lose_all (keys fs) c).0 ≡ true)
        × ((lose_all (keys fs) c).1.effects ≡ c.effects ++ lost fs)
  unfolding lose_all
  lose_all-answers [] c s h = (refl, sym (append-nil c.effects))
  lose_all-answers ((i, f) ∷ fs) c s h =
      let a = answer-some i lose_connect [] f c h.0 in
      let k =
        lose_all-answers fs (answer i lose_connect [] c) s.1
          (rw (a) (HasAll-erase i fs c.callback_map s.0 h.1)) in
      rw (lose_all, get_callback-some i (some f) c h.0)
        (k.0, k.1 ∙ (rw (a) (append_assoc c.effects (respond f lose_connect [] ∷ []) (lost fs))))

  renew_breakers-effects :
      (made conn_made : Bool) (c : Client C) → (renew_breakers made conn_made c).effects ≡ c.effects
  unfolding renew_breakers
  renew_breakers-effects made conn_made c = ground arith

  -- If the ids of the alarms that wait all have their callbacks in the map, then __WaitDisconnect, after
  -- the thread has ended, starts for each of these callbacks one detached thread that calls it with
  -- kErrorCodeLoseConnect, and starts no other; the threads are started in the order of the ids.
  pub wait_disconnect-answers :
      (made conn_made : Bool) (fs : List (ℕ × C)) (c : Client C)
      → c.has_thread ≡ true
      → keys c.timeout_alarms ≡ keys fs
      → IsSorted fs
      → HasAll fs c.callback_map
      → (wait_disconnect made conn_made c).effects ≡ c.effects ++ lost fs
  unfolding wait_disconnect lose_all stop_all renew_breakers
  wait_disconnect-answers made conn_made fs c t k s h =
      let l = lose_all-answers fs (stop_all c) s (unfold stop_all in h) in
      let e : (stop_all c).effects ≡ c.effects = (unfold stop_all in refl) in
      rw (k, t, l.0)
        (renew_breakers-effects made conn_made (lose_all (keys fs) (stop_all c)).1
          ∙ (l.1 ∙ ap (λ es. es ++ lost fs) e))
