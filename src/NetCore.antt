-- ===== src/NetCore.antt =====
-- net_core.cpp: the calls of the library's user on the one client there is.
pub mod Unsent
use go_socket_client.Prelude.{Bool, Option}
use go_socket_client.Packet.Gzip.{Bytes}
use go_socket_client.Client.{Client, ConnectStatus, DisconnectCode, NetType}
use go_socket_client.Timer.Alarm.{set_callback}
use go_socket_client.Client.Calls
use go_socket_client.Client.Requests

module _ {ℓ} {C : Type ℓ} where
  -- NetCore::MakeSureConnected
  unfoldable pub make_sure_connected : Client C → Client C
  make_sure_connected c = Calls.make_sure_connected c

  -- NetCore::DisconnectAsync; `told` says whether the pipe takes the byte of SendDisconnect.
  unfoldable pub disconnect_async : Bool → Bool → Bool → DisconnectCode → Bool → Client C → Client C
  disconnect_async told writes conn_writes code should_reconnect c =
      Calls.disconnect_async writes conn_writes code should_reconnect
        (Requests.send_disconnect told c)

  -- Both NetCore::Send
  unfoldable pub send : Bool → Bytes → Bytes → Option Bytes → Option C → Client C → Bool × Client C
  send writes kind payload content callback c = Requests.send writes kind payload content callback c

  -- NetCore::SendNoReply
  unfoldable pub send_no_reply : Bool → Bytes → Bytes → Client C → Bool × Client C
  send_no_reply writes kind payload c = Requests.send_no_reply writes kind payload c

  -- NetCore::SetNetType
  unfoldable pub set_net_type : NetType → Client C → Client C
  set_net_type n c = record c { net_type = n }

  -- NetCore::GetConnectStatus
  unfoldable pub get_connect_status : Client C → ConnectStatus
  get_connect_status c = c.status

  -- NetCore::SetOnConnStatusChange; the argument says whether there is a callback.
  unfoldable pub set_on_conn_status_change : Bool → Client C → Client C
  set_on_conn_status_change there c = record c {
    listeners = record (c.listeners) { on_status_change = there };
  }

  -- NetCore::SetOnServerDisconnect
  unfoldable pub set_on_server_disconnect : Bool → Client C → Client C
  set_on_server_disconnect there c = record c {
    listeners = record (c.listeners) { on_server_disconnect = there };
  }

  -- NetCore::SetOnSendReq
  unfoldable pub set_on_send_req : Bool → Client C → Client C
  set_on_send_req there c = record c { listeners = record (c.listeners) { on_send_req = there } }

  -- NetCore::InitHostAndPort, but for the port, TLS and the callback for the connection's text, which the
  -- connecting takes as arguments.
  unfoldable pub init_host_and_port : Bytes → Bytes → Client C → Client C
  init_host_and_port host backup_ip c = record c {
    host = host;
    backup_ip = backup_ip;
    reconnect_alarm = set_callback c.reconnect_alarm;
    ping_alarm = set_callback c.ping_alarm;
    ping_timeout_alarm = set_callback c.ping_timeout_alarm;
  }
