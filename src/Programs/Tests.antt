-- ===== src/Programs/Tests.antt =====
-- Runs of src/sender.c and src/receiver.c on one machine.
use linfo1341_project.Common.{◌≡◌, refl, true, false, [], ◌∷◌, arith}
use linfo1341_project.Programs.{
  Env, opt_f, opt_s, minus_one, opened_socket, opened_input, opened_stats, connected, looped,
  closed, closed_stats, create_socket, sender_main, receiver_main,
}
use linfo1341_project.Programs.{stats_of, input_of, sender_run, sender_options, real_address}
use linfo1341_project.Programs.Descriptors.{Ends}
use linfo1341_project.Programs.Exit.{sender_main-Ends, receiver_main-Ends}

-- Every call succeeds, and no name is `stdin` or `localhost`.
abbrev machine : Env
machine = record {
  strcmp = λ left right. 1;
  strtol = λ text. (12345, []);
  getaddrinfo = λ address. 0;
  open_file = λ name. 4;
  fopen = λ name. true;
  socket = 5;
  bind = 0;
  connect = 0;
  recvfrom = 21;
  connect_peer = 0;
}

sender_run_calls : sender_main machine (opt_f "in" ∷ opt_s "stats" ∷ []) ("::1" ∷ "12345" ∷ []) ≡ (
  opened_input 4
      ∷ opened_stats
      ∷ opened_socket 5
      ∷ connected 5 12345
      ∷ looped 5 4 true
      ∷ closed 5
      ∷ closed 4
      ∷ closed_stats
      ∷ [],
  0,
)
unfolding sender_main sender_options sender_run input_of stats_of create_socket real_address
sender_run_calls = refl

-- The socket is left open when it cannot be connected.
failed_connect :
    create_socket (record machine { connect = minus_one }) false minus_one true 12345
    ≡ (opened_socket 5 ∷ [], minus_one)
unfolding create_socket
failed_connect = refl

sender_main-Ends_example :
    Ends (sender_main machine (opt_f "in" ∷ opt_s "stats" ∷ []) ("::1" ∷ "12345" ∷ []))
sender_main-Ends_example =
    sender_main-Ends machine (λ name. omega arith) (opt_f "in" ∷ opt_s "stats" ∷ [])
      ("::1" ∷ "12345" ∷ [])

receiver_main-Ends_example : Ends (receiver_main machine (opt_s "stats" ∷ []) ("::" ∷ "12345" ∷ []))
receiver_main-Ends_example = receiver_main-Ends machine (opt_s "stats" ∷ []) ("::" ∷ "12345" ∷ [])
