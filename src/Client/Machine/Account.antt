-- ===== src/Client/Machine/Account.antt =====
-- tcp_client.cpp: the account of the callbacks of Send. `p` marks the callbacks that are counted: with
-- every choice of `p`, the theorem says of each callback how often it is called.
pub mod Steps
pub mod Run
use go_socket_client.Prelude.{
  [], ℕ, ◌+◌, ◌≡◌, refl, ◌∙◌, inl, inr, Bool, true, Option, none, some, List, ◌∷◌, ◌++◌, arith,
  if◌then◌else◌, Option-cases,
}
use go_socket_client.Prelude.StdMap.{put, find, erase}
use go_socket_client.Packet.Gzip.{Bytes}
use go_socket_client.Client.{
  [], Client, ErrorCode, Effect, respond, status_change, push, server_disconnect, emit, respond_to,
  is_connected,
}
use go_socket_client.Client.Calls.{get_callback, answer}
use go_socket_client.Client.Machine.{Event, send_call, step}
use go_socket_client.Client.Machine.Keeps.{SameBook}

module _ {ℓ} {C : Type ℓ} where
  -- A Send that is accepted finds its id free.
  abbrev pub IsFree : Event C → Client C → Type ℓ
  IsFree (send_call w kind payload content func) c =
      is_connected c.status ≡ true → find c.current_msg_id c.callback_map ≡ none
  IsFree e c = Unit

  abbrev pub AllFree : List (Event C) → Client C → Type ℓ
  AllFree [] c = Unit
  AllFree (e ∷ es) c = IsFree e c × AllFree es (step e c)

module _ {ℓ} {C : Type ℓ} (p : C → Bool) where
  abbrev pub weight : Option C → ℕ
  weight none = 0
  weight (some f) = if p f then 1 else 0

  -- The marked callbacks in the map, and the calls of marked callbacks.
  abbrev pub waiting : List (ℕ × Option C) → ℕ
  waiting [] = 0
  waiting ((i, f) ∷ m) = weight f + waiting m

  abbrev pub call_weight : Effect C → ℕ
  call_weight (respond f code payload) = weight (some f)
  call_weight (status_change s) = 0
  call_weight (push kind payload) = 0
  call_weight (server_disconnect t) = 0

  abbrev pub called : List (Effect C) → ℕ
  called [] = 0
  called (e ∷ es) = call_weight e + called es

  unfoldable pub account : Client C → ℕ
  account c = waiting c.callback_map + called c.effects

  pub called-append : (es fs : List (Effect C)) → called (es ++ fs) ≡ called es + called fs
  called-append [] fs = omega arith
  called-append (e ∷ es) fs = omega (arith, called-append es fs)

  pub waiting-put :
      (i : ℕ) (f : Option C) (m : List (ℕ × Option C))
      → find i m ≡ none
      → waiting (put i f m) ≡ weight f + waiting m
  unfolding put find
  waiting-put i f [] h = omega arith
  waiting-put i f ((j, g) ∷ m) h = ground (arith, waiting-put i f m)

  pub waiting-erase :
      (i : ℕ) (f : Option C) (m : List (ℕ × Option C))
      → find i m ≡ some f
      → weight f + waiting (erase i m) ≡ waiting m
  unfolding erase find
  waiting-erase i f [] h = ground (arith, h)
  waiting-erase i f ((j, g) ∷ m) h = ground (arith, waiting-erase i f m)

  pub SameBook-account : (c d : Client C) → SameBook c d → account d ≡ account c
  unfolding account
  SameBook-account c d h = rw (h.map_same, h.effects_same) refl

  -- A call that is not a response.
  pub emit-account :
      (e : Effect C) (c : Client C) → call_weight e ≡ 0 → account (emit e c) ≡ account c
  unfolding account
  emit-account e c h = omega (arith, called-append c.effects (e ∷ []), h)

  pub respond-account :
      (f : Option C) (code : ErrorCode) (payload : Bytes) (c : Client C)
      → account (respond_to f code payload c) ≡ weight f + account c
  unfolding account respond_to
  respond-account none code payload c = omega arith
  respond-account (some f) code payload c =
      omega (arith, called-append c.effects (respond f code payload ∷ []))

  pub get_callback-account :
      (i : ℕ) (c : Client C)
      → weight (get_callback i c).0 + account (get_callback i c).1 ≡ account c
  unfolding account get_callback
  get_callback-account i c = elim (Option-cases (find i c.callback_map)) [
    | inl e ↦ rw (get_callback, e) (omega arith)
    | inr (f, e) ↦ rw (get_callback, e) (omega (arith, waiting-erase i f c.callback_map e))
  ]

  pub answer-account :
      (i : ℕ) (code : ErrorCode) (payload : Bytes) (c : Client C)
      → account (answer i code payload c) ≡ account c
  unfolding answer
  answer-account i code payload c =
      respond-account (get_callback i c).0 code payload (get_callback i c).1
      ∙ get_callback-account i c
