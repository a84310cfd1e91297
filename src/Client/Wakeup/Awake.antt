-- ===== src/Client/Wakeup/Awake.antt =====
-- tcp_client.cpp: whatever there is for the client's thread to do, it has not been polled for yet, or a
-- signal is in the pipe, or someone is about to put one there.
use go_socket_client.Prelude.{
  sym, subst, ◌∙◌, ap, ◌≡◌, refl, Bool, true, false, not, ◌||◌, ◌&&◌, arith, if◌then◌else◌,
}
use go_socket_client.Socket.Breaker.{SocketBreaker, break, clear}
use go_socket_client.Client.{Client}
use go_socket_client.Client.Wakeup.{
  Place, prepared, selecting, woken, cleared, looking, left, Holder, telling, breaking_read_write,
  Moment, at,
}
use go_socket_client.Client.Wakeup.Quiet.{has_code, has_late, has_ping, has_message, IsQuieter}

-- Between the Clear and the look at a thing there need be no signal for it.
abbrev pub owes_code : Place → Bool
owes_code p = elim p [ cleared w ↦ false | left ↦ false | _ ↦ true ]

abbrev pub owes_late : Place → Bool
owes_late p = elim p [ cleared w ↦ false | looking w ↦ false | left ↦ false | _ ↦ true ]

-- The alarm for the next ping is looked at last, and started again at the head of the loop.
abbrev pub owes_ping : Place → Bool
owes_ping p = elim p [ prepared ↦ true | selecting w ↦ true | woken w ↦ true | _ ↦ false ]

-- The queue is looked at before every poll; one that has messages is polled for.
abbrev pub owes_message : Place → Bool
owes_message p = elim p [ selecting w ↦ not w | _ ↦ false ]

abbrev pub is_telling : Holder → Bool
is_telling h = elim h [ telling ↦ true | _ ↦ false ]

abbrev pub is_breaking : Holder → Bool
is_breaking h = elim h [ breaking_read_write ↦ true | _ ↦ false ]

-- The breaker works, and its pipe holds one byte if a signal is noted and none if not.
pub record IsWorking (b : SocketBreaker) : Type 0 where
  pub in_step : b.held ≡ (if b.broken then 1 else 0)
  pub usable : b.usable ≡ true

pub break-IsWorking :
    (b : SocketBreaker)
    → IsWorking b
    → IsWorking (break true b).1 × ((break true b).1.broken ≡ true) × ((break true b).0 ≡ true)
unfolding break
break-IsWorking b h = (ground arith, ground arith, ground arith)

pub clear-IsWorking : (b : SocketBreaker) → IsWorking b → IsWorking (clear b).1
unfolding clear
clear-IsWorking b h = ground arith

told_or : (t s : Bool) → t ≡ true → (t || s) ≡ true
told_or t s e = ground (arith, e)

-- What is owed at `q` for `f` was owed at `p` for `g`.
carry :
    (p q f g t u s : Bool)
    → u ≡ t
    → ((q && f) ≡ true → p ≡ true)
    → (f ≡ true → g ≡ true)
    → ((p && g) ≡ true → (t || s) ≡ true)
    → (q && f) ≡ true
    → (u || s) ≡ true
carry true true true true t u s e h k l x = rw e (l refl)
carry true true true false t u s e h k l x = ground (arith, k refl)
carry false true true g t u s e h k l x = ground (arith, h refl)
carry p false f g t u s e h k l x = ground (arith, x)
carry p true false g t u s e h k l x = ground (arith, x)

and_first : (p q : Bool) → (p && q) ≡ true → p ≡ true
and_first p q x = ground (arith, x)

module _ {ℓ} {C : Type ℓ} where
  abbrev pub is_told : Client C → Bool
  is_told c = c.read_write_breaker.broken

  pub record IsAwake (m : Moment C) : Type ℓ where
    pub threaded : m.client.has_thread ≡ true
    pub callback : m.client.ping_alarm.has_callback ≡ true
    pub working : IsWorking m.client.read_write_breaker
    pub code :
        (owes_code m.place && has_code m.client) ≡ true
        → (is_told m.client || is_breaking m.holder) ≡ true
    pub late :
        (owes_late m.place && has_late m.client) ≡ true → (is_told m.client || m.firing) ≡ true
    pub ping :
        (owes_ping m.place && has_ping m.client) ≡ true → (is_told m.client || m.firing) ≡ true
    pub message :
        (owes_message m.place && has_message m.client) ≡ true
        → (is_told m.client || is_telling m.holder) ≡ true

  -- From place `p` to place `q` with the client `d`: what is owed at `q` was owed at `p`.
  pub record Leads (p q : Place) (d : Client C) : Type 0 where
    pub code_owed : (owes_code q && has_code d) ≡ true → owes_code p ≡ true
    pub late_owed : (owes_late q && has_late d) ≡ true → owes_late p ≡ true
    pub ping_owed : (owes_ping q && has_ping d) ≡ true → owes_ping p ≡ true
    pub message_owed : (owes_message q && has_message d) ≡ true → owes_message p ≡ true

  pub advance :
      (m : Moment C) (q : Place) (d : Client C)
      → IsAwake m
      → IsQuieter m.client d
      → Leads m.place q d
      → IsAwake (at q d m)
  advance m q d a h l =
      let e : is_told d ≡ is_told m.client = ap (λ (b : SocketBreaker). b.broken) h.breaker_same in
      record {
        threaded = h.thread_same ∙ a.threaded;
        callback = h.callback_same ∙ a.callback;
        working = subst IsWorking (sym h.breaker_same) a.working;
        code =
            carry (owes_code m.place) _ _ (has_code m.client) _ _ _ e l.code_owed h.code_less
              a.code;
        late =
            carry (owes_late m.place) _ _ (has_late m.client) _ _ _ e l.late_owed h.late_less
              a.late;
        ping =
            carry (owes_ping m.place) _ _ (has_ping m.client) _ _ _ e l.ping_owed h.ping_less
              a.ping;
        message =
            carry (owes_message m.place) _ _ (has_message m.client) _ _ _ e l.message_owed
              h.message_less a.message;
      }

  -- The same at the same place, when somebody else has moved
  pub hold :
      (m : Moment C) (d : Client C)
      → IsAwake m
      → IsQuieter m.client d
      → IsAwake (record m { client = d })
  hold m d a h = advance m m.place d a h (record {
    code_owed = λ x. and_first _ _ x;
    late_owed = λ x. and_first _ _ x;
    ping_owed = λ x. and_first _ _ x;
    message_owed = λ x. and_first _ _ x;
  })

  -- With a signal in the pipe nothing is owed.
  pub told-IsAwake :
      (d : Client C) (p : Place) (k : Holder) (f : Bool)
      → d.has_thread ≡ true
      → d.ping_alarm.has_callback ≡ true
      → IsWorking d.read_write_breaker
      → is_told d ≡ true
      → IsAwake (record { client = d; place = p; holder = k; firing = f })
  told-IsAwake d p k f t b w e = record {
    threaded = t;
    callback = b;
    working = w;
    code = λ x. told_or _ _ e;
    late = λ x. told_or _ _ e;
    ping = λ x. told_or _ _ e;
    message = λ x. told_or _ _ e;
  }
