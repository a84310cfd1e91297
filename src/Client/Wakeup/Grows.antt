-- ===== src/Client/Wakeup/Grows.antt =====
-- tcp_client.cpp: which calls take nothing out of the queue and no code back.
use go_socket_client.Prelude.{
  Option, ℕ, ◌≡◌, sym, ap, ◌∙◌, Bool, true, ◌++◌, List, [], arith, append-nil, append_assoc,
}
use go_socket_client.Packet.Gzip.{Bytes}
use go_socket_client.Packet.Message.{Message}
use go_socket_client.Client.{Client, ErrorCode, timeout, respond_to}
use go_socket_client.Client.Calls.{
  make_sure_connected, break_read_write, break_connect, answer, drop_timeout, get_callback,
}
use go_socket_client.Client.Requests.{notify}
use go_socket_client.Client.Wakeup.Quiet.{has_code}

module _ {ℓ} {C : Type ℓ} where
  -- `d` has a code if `c` has one, and the queue of `c` with some messages more.
  pub record Grows (c d : Client C) : Type 0 where
    pub code_kept : has_code c ≡ true → has_code d ≡ true
    pub added : List Message
    pub queue_grows : d.message_queue ≡ c.message_queue ++ added

  pub Grows-same :
      (c d : Client C) → d.dis_code ≡ c.dis_code → d.message_queue ≡ c.message_queue → Grows c d
  Grows-same c d h k = record {
    code_kept = λ x. ground (arith, h, x);
    added = [];
    queue_grows = k ∙ sym (append-nil c.message_queue);
  }

  pub Grows-trans : (c d e : Client C) → Grows c d → Grows d e → Grows c e
  Grows-trans c d e h k = record {
    code_kept = λ x. k.code_kept (h.code_kept x);
    added = h.added ++ k.added;
    queue_grows =
        k.queue_grows
        ∙ ap (λ q. q ++ k.added) h.queue_grows
        ∙ append_assoc c.message_queue h.added k.added;
  }

  pub make_sure_connected-Grows :
      (c : Client C) → c.has_thread ≡ true → Grows c (make_sure_connected c)
  unfolding make_sure_connected
  make_sure_connected-Grows c h = Grows-same c _ (ground (arith, h)) (ground (arith, h))

  pub respond_to-Grows :
      (f : Option C) (code : ErrorCode) (payload : Bytes) (c : Client C)
      → Grows c (respond_to f code payload c)
  unfolding respond_to
  respond_to-Grows f code payload c = Grows-same c _ (ground arith) (ground arith)

  pub answers_late-Grows : (i : ℕ) (c : Client C) → Grows c (answer i timeout [] (drop_timeout i c))
  unfolding answer drop_timeout get_callback respond_to
  answers_late-Grows i c = Grows-same c _ (ground arith) (ground arith)

  pub notify-Grows : (w : Bool) (c : Client C) → Grows c (notify w c)
  unfolding notify
  notify-Grows w c = Grows-same c _ (ground arith) (ground arith)

  pub break_read_write-Grows : (w : Bool) (c : Client C) → Grows c (break_read_write w c)
  unfolding break_read_write
  break_read_write-Grows w c = Grows-same c _ (ground arith) (ground arith)

  pub break_connect-Grows : (w : Bool) (c : Client C) → Grows c (break_connect w c)
  unfolding break_connect
  break_connect-Grows w c = Grows-same c _ (ground arith) (ground arith)
