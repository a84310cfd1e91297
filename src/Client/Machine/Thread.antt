-- ===== src/Client/Machine/Thread.antt =====
-- tcp_client.cpp: the client's thread as a run of events, so that what holds of every run holds of
-- the thread, whatever the other threads do meanwhile.
pub mod Turns
pub mod Connecting
pub mod Run
pub mod Sound
use go_socket_client.Prelude.{
  [], ◌≡◌, refl, ap, ◌∙◌, Bool, true, false, List, ◌∷◌, ◌++◌, if◌then◌else◌,
}
use go_socket_client.Packet.Error.{Outcome, ok, throw, undefined}
use go_socket_client.Packet.Reader.{Stream}
use go_socket_client.Client.{[], Client}
use go_socket_client.Client.Loop.{Turned, stay, leave, and_then}
use go_socket_client.Client.Machine.{Event, step, run, run-append}

module _ {ℓ} {C : Type ℓ} where
  -- Some run of events makes the second client of the first.
  pub record Reaches (c d : Client C) : Type ℓ where
    pub events : List (Event C)
    pub reaches : run events c ≡ d

  pub Reaches-refl : (c : Client C) → Reaches c c
  unfolding run
  Reaches-refl c = record { events = []; reaches = refl }

  pub Reaches-trans : (c d e : Client C) → Reaches c d → Reaches d e → Reaches c e
  Reaches-trans c d e h k = record {
    events = h.events ++ k.events;
    reaches = run-append h.events k.events c ∙ ap (run k.events) h.reaches ∙ k.reaches;
  }

  pub by_step : (e : Event C) (c : Client C) → Reaches c (step e c)
  unfolding run
  by_step e c = record { events = e ∷ []; reaches = refl }

  -- The client with which a part of the loop ends, if it does.
  unfoldable pub ReachesAt : Client C → Outcome (Turned C) → Type ℓ
  ReachesAt c (ok (stay d s)) = Reaches c d
  ReachesAt c (ok (leave d s)) = Reaches c d
  ReachesAt c (throw e) = Unit
  ReachesAt c undefined = Unit

  pub stays : (c d : Client C) (s : Stream) → Reaches c d → ReachesAt c (ok (stay d s))
  unfolding ReachesAt
  stays c d s h = h

  pub leaves : (c d : Client C) (s : Stream) → Reaches c d → ReachesAt c (ok (leave d s))
  unfolding ReachesAt
  leaves c d s h = h

  pub if-ReachesAt :
      (c : Client C) (b : Bool) (x y : Outcome (Turned C))
      → ReachesAt c x
      → ReachesAt c y
      → ReachesAt c (if b then x else y)
  if-ReachesAt c true x y h k = h
  if-ReachesAt c false x y h k = k

  pub if-Reaches :
      (c : Client C) (b : Bool) (d e : Client C)
      → Reaches c d
      → Reaches c e
      → Reaches c (if b then d else e)
  if-Reaches c true d e h k = h
  if-Reaches c false d e h k = k

  pub from_here :
      (c d : Client C) (x : Outcome (Turned C)) → Reaches c d → ReachesAt d x → ReachesAt c x
  unfolding ReachesAt
  from_here c d (ok (stay e s)) h k = Reaches-trans c d e h k
  from_here c d (ok (leave e s)) h k = Reaches-trans c d e h k
  from_here c d (throw e) h k = tt
  from_here c d undefined h k = tt

  pub and_then-ReachesAt :
      (c : Client C) (x : Outcome (Turned C)) (f : Client C → Stream → Outcome (Turned C))
      → ReachesAt c x
      → ((d : Client C) (s : Stream) → ReachesAt d (f d s))
      → ReachesAt c (and_then x f)
  unfolding and_then ReachesAt
  and_then-ReachesAt c (ok (stay d s)) f h k = from_here c d (f d s) h (k d s)
  and_then-ReachesAt c (ok (leave d s)) f h k = h
  and_then-ReachesAt c (throw e) f h k = tt
  and_then-ReachesAt c undefined f h k = tt
