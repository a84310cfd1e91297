-- ===== src/Tests/ConnectTests.antt =====
-- The theorems on connect/complex_connect.cpp at concrete inputs.
use go_socket_client.Prelude.{ℕ, ◌+◌, refl, true, false, some, List, [], ◌∷◌, arith}
use go_socket_client.Connect.Dns.{AddrInfo}
use go_socket_client.Connect.Connector.{
  connecting, new_connector, Answers, ssl_want_read, is_late, pre_select, after_select,
  tcp_pre_select, tcp_after_select, pre_connect_select, after_connect_select,
}
use go_socket_client.Connect.Impatient.{
  Attempts, Round, client_settings, connect_impatient, is_next_due, may_start, has_room, start_next,
  prepare, conclude, finish_turn, loop_turn, loop, connectors_of, has_text, running, sockets_of,
  pre_all, pre_one, after_all, sweep, all_invalid, leave, clear_all,
}
use go_socket_client.Connect.Impatient.Sockets.{IsSteadyAt, connect_impatient-IsSteadyAt}
use go_socket_client.Connect.Impatient.Ends.{LongTurns, IsEnded, connect_impatient-IsEnded}

-- One address, whose connection begins at the time 100000 and is never made.
abbrev silent_answers : ℕ → Answers
silent_answers t = record {
  tick = t;
  got_socket = true;
  set_noblo = true;
  connect_begun = true;
  exception_set = false;
  write_set = false;
  read_set = false;
  set_blo = true;
  ssl_result = ssl_want_read;
}

abbrev silent_round : ℕ → Round
silent_round t = record {
  cur = t;
  start_tick = t;
  before = λ i. silent_answers t;
  after = λ i. silent_answers (t + 1000);
  select_failed = false;
  breaker_exception = false;
  is_break = false;
}

abbrev one_address : List AddrInfo
one_address = record { ip = 9 ∷ []; port = 443; is_tls = false } ∷ []

abbrev silent_rounds : List Round
silent_rounds =
    silent_round 100000
    ∷ silent_round 109000
    ∷ silent_round 118000
    ∷ silent_round 127000
    ∷ silent_round 136000
    ∷ []

connect_impatient-IsSteadyAt_example :
    IsSteadyAt client_settings (connect_impatient client_settings 100000 one_address silent_rounds)
connect_impatient-IsSteadyAt_example =
    connect_impatient-IsSteadyAt client_settings 100000 one_address silent_rounds

silent_rounds-LongTurns :
    LongTurns client_settings silent_rounds
      (connect_impatient client_settings 100000 one_address [])
unfolding connect_impatient loop connectors_of has_text loop_turn is_next_due may_start has_room
    start_next prepare conclude finish_turn running sockets_of pre_all pre_one after_all sweep
    all_invalid leave clear_all is_late pre_select after_select tcp_pre_select tcp_after_select
    pre_connect_select after_connect_select
silent_rounds-LongTurns = (
  record { due = refl; all_long = tt },
  (record { due = refl; all_long = ((ground arith, refl), tt) }, tt),
)

connect_impatient-IsEnded_example :
    IsEnded (connect_impatient client_settings 100000 one_address silent_rounds)
connect_impatient-IsEnded_example =
    connect_impatient-IsEnded client_settings 100000 one_address silent_rounds (omega arith)
      silent_rounds-LongTurns (omega arith)

-- A turn with one connector at work and one address to come.
abbrev busy_attempts : Attempts
busy_attempts = record {
  connectors =
      some (record (new_connector true false 10000) {
        has_socket = true;
        status = connecting;
        start_conn_time = 100000;
      })
      ∷ some (new_connector true false 10000)
      ∷ [];
  index = 1;
  last_start = 100000;
  last_error = false;
  made = 1;
  closed = 0;
  leaked = 0;
}
