-- ===== src/Client/Machine/Thread/Sound.antt =====
-- tcp_client.cpp: the client's thread keeps the client sound.
use go_socket_client.Packet.Error.{Outcome, ok, throw, undefined}
use go_socket_client.Packet.Gzip.{Gzip}
use go_socket_client.Client.{Client}
use go_socket_client.Client.Loop.{Turned, stay, leave}
use go_socket_client.Client.Machine.Sound.{IsSound}

module _ {ℓ} {C : Type ℓ} where
  -- The client that is left, if the thread returns or still runs.
  abbrev pub IsSoundAt : Outcome (Turned C) → Type ℓ
  IsSoundAt (ok (stay d s)) = IsSound d
  IsSoundAt (ok (leave d s)) = IsSound d
  IsSoundAt (throw e) = Unit
  IsSoundAt undefined = Unit
