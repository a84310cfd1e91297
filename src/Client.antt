-- ===== src/Client.antt =====
-- tcp_client.hpp and tcp_define.h: what the client keeps. The locks of tcp_client.cpp make each
-- function below one step. A callback of Send is a value of any type `C`; calls of the user's callbacks
-- are appended to `effects`. The connect breaker and the alarms are those of Socket and Timer.
pub mod Calls
pub mod Requests
pub mod Connecting
pub mod Loop
pub mod Machine
pub mod Wakeup
use go_socket_client.Prelude.{[], ℕ, Bool, true, false, Option, none, some, List, ◌∷◌, ◌++◌}
use go_socket_client.Packet.Gzip.{Bytes}
use go_socket_client.Packet.Message.{Message}
use go_socket_client.Socket.Breaker.{SocketBreaker}
use go_socket_client.Timer.Queue.{Queue, new_queue}
use go_socket_client.Timer.Alarm.{Alarm, new_alarm}

pub data DisconnectCode : Type 0 where
  dis_none reset net_change net_lost kickout logout connect_timeout : DisconnectCode
  send_req_timeout ping_timeout : DisconnectCode

pub data NetType : Type 0 where
  unknown wifi mobile no_net : NetType

pub data ConnectStatus : Type 0 where
  idle connecting connected disconnected connect_failed connect_kickout : ConnectStatus

pub data ErrorCode : Type 0 where
  no_error not_connect timeout lose_connect : ErrorCode

-- The calls of the user's callbacks: a response's, the status's, a push's, the server's disconnect. A
-- call that the source makes in a detached thread stands where that thread is started; when it runs is
-- open.
pub data Effect {ℓ} (C : Type ℓ) : Type ℓ where
  respond : C → ErrorCode → Bytes → Effect C
  status_change : ConnectStatus → Effect C
  push : Bytes → Bytes → Effect C
  server_disconnect : ℕ → Effect C

-- The callbacks that the client's alarms carry.
pub data TimerCall : Type 0 where
  reconnect ping ping_late : TimerCall
  send_late : ℕ → TimerCall

-- The user's callbacks, of which the client knows whether they are set.
pub record Listeners : Type 0 where
  pub on_status_change : Bool
  pub on_send_req : Bool
  pub on_server_disconnect : Bool

-- The fields of TcpClient. `has_thread` is `_thread != NULL`, `has_socket` is `_socket != NULL`.
-- `alarm_pool` is `_objectPool`, its last element first.
pub record Client {ℓ} (C : Type ℓ) : Type ℓ where
  pub host : Bytes
  pub backup_ip : Bytes
  pub listeners : Listeners
  pub has_thread : Bool
  pub has_socket : Bool
  pub dis_code : DisconnectCode
  pub status : ConnectStatus
  pub net_type : NetType
  pub message_queue : List Message
  pub read_write_breaker : SocketBreaker
  pub connect_breaker : SocketBreaker
  pub should_reconnect : Bool
  pub should_new_breaker : Bool
  pub should_new_conn_breaker : Bool
  pub timeout_disconnect : Bool
  pub reconnect_count : ℕ
  pub last_conn_tick : ℕ
  pub current_msg_id : ℕ
  pub callback_map : List (ℕ × Option C)
  pub timeout_alarms : List (ℕ × Alarm)
  pub alarm_pool : List Alarm
  pub reconnect_alarm : Alarm
  pub ping_alarm : Alarm
  pub ping_timeout_alarm : Alarm
  pub timers : Queue TimerCall
  pub effects : List (Effect C)

abbrev pub new_breaker : SocketBreaker
new_breaker = record { held = 0; broken = false; usable = true }

-- The constructor's values, and after InitHostAndPort, which sets the callbacks of the alarms.
abbrev pub new_client {ℓ} : {C : Type ℓ} → Bytes → Bytes → Listeners → Client C
new_client host backup_ip listeners = record {
  host = host;
  backup_ip = backup_ip;
  listeners = listeners;
  has_thread = false;
  has_socket = false;
  dis_code = dis_none;
  status = idle;
  net_type = unknown;
  message_queue = [];
  read_write_breaker = new_breaker;
  connect_breaker = new_breaker;
  should_reconnect = false;
  should_new_breaker = false;
  should_new_conn_breaker = false;
  timeout_disconnect = false;
  reconnect_count = 0;
  last_conn_tick = 0;
  current_msg_id = 1;
  callback_map = [];
  timeout_alarms = [];
  alarm_pool = [];
  reconnect_alarm = record new_alarm { has_callback = true };
  ping_alarm = record new_alarm { has_callback = true };
  ping_timeout_alarm = record new_alarm { has_callback = true };
  timers = new_queue;
  effects = [];
}

unfoldable pub is_connected : ConnectStatus → Bool
is_connected s = elim s [ connected ↦ true | _ ↦ false ]

-- The numbers of the statuses
unfoldable pub status_number : ConnectStatus → ℕ
status_number idle = 0
status_number connecting = 1
status_number connected = 2
status_number disconnected = 3
status_number connect_failed = 4
status_number connect_kickout = 5

unfoldable pub is_dis_none : DisconnectCode → Bool
is_dis_none d = elim d [ dis_none ↦ true | _ ↦ false ]

module _ {ℓ} {C : Type ℓ} where
  abbrev pub emit : Effect C → Client C → Client C
  emit e c = record c { effects = c.effects ++ (e ∷ []) }

  -- `if (callback != NULL)` and the asynchronous call
  unfoldable pub respond_to : Option C → ErrorCode → Bytes → Client C → Client C
  respond_to callback code payload c = elim callback [
    | none ↦ c
    | some f ↦ emit (respond f code payload) c
  ]
