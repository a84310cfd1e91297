-- ===== src/Client/Wakeup/Turns.antt =====
-- tcp_client.cpp: which steps are those of the client's thread, and which calls note a code.
use go_socket_client.Prelude.{ℕ, ◌+◌, ◌≡◌, refl, false, arith}
use go_socket_client.Client.{is_dis_none}
use go_socket_client.Client.Wakeup.{
  Place, connecting, starting, prepared, looking, writing, reading, pinging, selecting, woken,
  cleared, left, Moment, Step, Reach, here, later, ensures, refused, sends, sends_no_reply,
  sends_disconnect, tells, disconnects, breaks_read_write, breaks_connect, ping_fires,
  ping_late_fires, signals, answers_late, gives_up_late,
}

-- How far the thread has come on its way out of the select; 4 is anywhere else.
abbrev pub rank : Place → ℕ
rank p = elim p [ selecting w ↦ 0 | woken w ↦ 1 | cleared w ↦ 2 | left ↦ 3 | _ ↦ 4 ]

pub rank-left : (p : Place) → rank p ≡ 3 → p ≡ left
rank-left left h = refl
rank-left connecting h = absurd (omega (arith, h))
rank-left starting h = absurd (omega (arith, h))
rank-left prepared h = absurd (omega (arith, h))
rank-left (selecting w) h = absurd (omega (arith, h))
rank-left (woken w) h = absurd (omega (arith, h))
rank-left (cleared w) h = absurd (omega (arith, h))
rank-left (looking w) h = absurd (omega (arith, h))
rank-left (writing w) h = absurd (omega (arith, h))
rank-left reading h = absurd (omega (arith, h))
rank-left pinging h = absurd (omega (arith, h))

module _ {ℓ} {C : Type ℓ} where
  -- The steps of the client's thread count, those of the others do not.
  abbrev pub turns : {m n : Moment C} → Step m n → ℕ
  turns ensures = 0
  turns (refused func e) = 0
  turns (sends kind payload content func h e) = 0
  turns (sends_no_reply kind payload h e) = 0
  turns (sends_disconnect h e) = 0
  turns (tells h) = 0
  turns (disconnects code again h e) = 0
  turns (breaks_read_write h) = 0
  turns (breaks_connect takes h) = 0
  turns (ping_fires f e) = 0
  turns (ping_late_fires f e) = 0
  turns (signals f) = 0
  turns (answers_late i) = 0
  turns gives_up_late = 0
  turns s = 1

  abbrev pub all_turns : {m n : Moment C} → Reach m n → ℕ
  all_turns here = 0
  all_turns (later r s) = all_turns r + turns s

  -- Nobody takes the code back.
  abbrev pub IsKept : {m n : Moment C} → Step m n → Type 0
  IsKept (disconnects code again h e) = is_dis_none code ≡ false
  IsKept s = Unit

  abbrev pub AllKept : {m n : Moment C} → Reach m n → Type 0
  AllKept here = Unit
  AllKept (later r s) = AllKept r × IsKept s
