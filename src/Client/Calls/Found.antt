-- ===== src/Client/Calls/Found.antt =====
-- tcp_client.cpp: what the calls do to an id that the maps have, and to one that they do not have.
use go_socket_client.Prelude.{
  ℕ, ◌≡◌, refl, inl, inr, Option, none, some, [], ◌∷◌, ◌++◌, Option-cases,
}
use go_socket_client.Prelude.StdMap.{find, erase, IsSorted, find-erase}
use go_socket_client.Packet.Gzip.{Bytes}
use go_socket_client.Client.{Client, ErrorCode, respond, respond_to}
use go_socket_client.Client.Calls.{get_callback, answer, stop_timeout, drop_timeout}

module _ {ℓ} {C : Type ℓ} where
  pub get_callback-some :
      (i : ℕ) (callback : Option C) (c : Client C)
      → find i c.callback_map ≡ some callback
      → get_callback i c ≡ (callback, record c { callback_map = erase i c.callback_map })
  unfolding get_callback
  get_callback-some i callback c h = rw (get_callback, h) refl

  pub get_callback-none :
      (i : ℕ) (c : Client C) → find i c.callback_map ≡ none → get_callback i c ≡ (none, c)
  unfolding get_callback
  get_callback-none i c h = rw (get_callback, h) refl

  pub answer-some :
      (i : ℕ) (code : ErrorCode) (payload : Bytes) (f : C) (c : Client C)
      → find i c.callback_map ≡ some (some f)
      → answer i code payload c ≡ record c {
        callback_map = erase i c.callback_map;
        effects = c.effects ++ (respond f code payload ∷ []);
      }
  unfolding respond_to answer
  answer-some i code payload f c h = rw (answer, get_callback-some i (some f) c h) refl

  pub answer-none :
      (i : ℕ) (code : ErrorCode) (payload : Bytes) (c : Client C)
      → find i c.callback_map ≡ none
      → answer i code payload c ≡ c
  unfolding respond_to answer
  answer-none i code payload c h = rw (answer, get_callback-none i c h) refl

  pub stop_timeout-none :
      (i : ℕ) (c : Client C) → find i c.timeout_alarms ≡ none → stop_timeout i c ≡ c
  unfolding stop_timeout
  stop_timeout-none i c h = rw (stop_timeout, h) refl

  -- What stopping a timeout keeps and takes.
  unfoldable pub Stopped : ℕ → Client C → Client C → Type ℓ
  Stopped i c d =
      (d.callback_map ≡ c.callback_map) × (d.effects ≡ c.effects) × (find i d.timeout_alarms ≡ none)

  pub stop_timeout-Stopped :
      (i : ℕ) (c : Client C) → IsSorted c.timeout_alarms → Stopped i c (stop_timeout i c)
  unfolding Stopped stop_timeout
  stop_timeout-Stopped i c s = elim (Option-cases (find i c.timeout_alarms)) [
    | inl e ↦ rw (stop_timeout-none i c e) (refl, refl, e)
    | inr (a, e) ↦ rw (stop_timeout, e) (refl, refl, find-erase i c.timeout_alarms s)
  ]

  pub drop_timeout-Stopped :
      (i : ℕ) (c : Client C) → IsSorted c.timeout_alarms → Stopped i c (drop_timeout i c)
  unfolding Stopped drop_timeout
  drop_timeout-Stopped i c s = elim (Option-cases (find i c.timeout_alarms)) [
    | inl e ↦ rw (drop_timeout, e) (refl, refl, e)
    | inr (a, e) ↦ rw (drop_timeout, e) (refl, refl, find-erase i c.timeout_alarms s)
  ]

  pub drop_timeout-none :
      (i : ℕ) (c : Client C) → find i c.timeout_alarms ≡ none → drop_timeout i c ≡ c
  unfolding drop_timeout
  drop_timeout-none i c h = rw (drop_timeout, h) refl
