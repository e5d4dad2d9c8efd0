-- ===== src/Examples/Mailbox.antt =====
-- A socket that keeps what is written and delivers what it holds.
use qoe_test_harness.Prelude.{ℕ, ◌+◌, none, List, [], ◌∷◌, ◌++◌}
use qoe_test_harness.Net.Socket.{Inbound, timed_out, Socket}
use qoe_test_harness.Server.{Addr}

pub record Mail : Type 0 where
  pub clock : ℕ
  pub sent : List (List ℕ)
  pub inbox : List Inbound

abbrev taken_from : Mail → List Inbound → Inbound × Mail
taken_from w [] = (timed_out "i/o timeout", w)
taken_from w (m ∷ ms) = (m, record w { clock = w.clock + 1; inbox = ms })

abbrev pub mailbox : Socket
mailbox = record {
  World = Mail;
  now = λ w. w.clock;
  write = λ b w. (none, record w { sent = w.sent ++ (b ∷ []) });
  set_read_deadline = λ d w. (none, w);
  read = λ w. taken_from w w.inbox;
  close = λ w. (none, w);
  syscall_conn = λ w. (none, w);
  control = λ opt value w. ((none, none), w);
}

abbrev pub client : Addr
client = record { ip = 10 ∷ 0 ∷ 0 ∷ 7 ∷ []; port = 4000 }
