-- ===== src/Programs.antt =====
-- src/sender.c and src/receiver.c: the programs around the two loops, with the sockets of
-- src/lib/send_data. What the C library and the kernel give back is a parameter; what a program does
-- to the outside is the list of its calls that succeed, and of those it makes whatever they give.
pub mod Descriptors
pub mod Exit
mod Tests
use Prim.Native.String.{String}
use linfo1341_project.Common.{
  ℕ, ◌-◌, ◌%◌, ◌^◌, Bool, true, false, not, ◌&&◌, Option, none, some, List, [], ◌∷◌, ◌++◌, ◌==◌,
  if◌then◌else◌,
}
use linfo1341_project.Stats.{int_lt}

-- -1, as an `int` pattern
abbrev pub minus_one : ℕ
minus_one = 2 ^ 32 - 1

-- What the calls give back; `strtol` gives the number and the rest of the text, and `fopen` tells
-- whether there is a file.
pub record Env : Type 0 where
  pub strcmp : String → String → ℕ
  pub strtol : String → ℕ × List ℕ
  pub getaddrinfo : String → ℕ
  pub open_file : String → ℕ
  pub fopen : String → Bool
  pub socket : ℕ
  pub bind : ℕ
  pub connect : ℕ
  pub recvfrom : ℕ
  pub connect_peer : ℕ

pub data Call : Type 0 where
  opened_socket opened_input closed peeked connected_peer : (fd : ℕ) → Call
  bound connected : (fd port : ℕ) → Call
  opened_stats closed_stats : Call
  looped : (sfd fd : ℕ) → (stats : Bool) → Call

-- The options that `getopt` finds, in order
pub data Opt : Type 0 where
  opt_f opt_s : String → Opt
  opt_h opt_unknown : Opt

pub record Options : Type 0 where
  pub filename : Option String
  pub stats_filename : Option String

abbrev pub no_options : Options
no_options = record { filename = none; stats_filename = none }

-- The loops over the options; `none` is a call of `print_usage`.
unfoldable pub sender_options : List Opt → Options → Option Options
sender_options [] o = some o
sender_options (opt_f name ∷ rest) o = sender_options rest (record o { filename = some name })
sender_options (opt_s name ∷ rest) o = sender_options rest (record o { stats_filename = some name })
sender_options (opt_h ∷ rest) o = none
sender_options (opt_unknown ∷ rest) o = none

unfoldable pub receiver_options : List Opt → Option String → Option (Option String)
receiver_options [] stats = some stats
receiver_options (opt_s name ∷ rest) stats = receiver_options rest (some name)
receiver_options (opt_h ∷ rest) stats = none
receiver_options (opt_f name ∷ rest) stats = none
receiver_options (opt_unknown ∷ rest) stats = none

-- A message that is not NULL
abbrev pub is_error : Option String → Bool
is_error none = false
is_error (some message) = true

module _ (env : Env) where
  -- `none` is NULL: no error. A pointer argument is NULL or not.
  unfoldable pub real_address : (address : Option String) → (rval : Bool) → Option String
  real_address none rval = some "NULL input"
  real_address (some address) rval =
      if not rval
      then some "NULL input"
      else if env.getaddrinfo address == 0
      then none
      else some "error at getadrrinfo()"

  unfoldable pub create_socket :
      (source : Bool) → (src_port : ℕ) → (dest : Bool) → (dst_port : ℕ) → List Call × ℕ
  create_socket source src_port dest dst_port =
      let sock = env.socket in
      let binds = source && int_lt 0 src_port in
      let connects = dest && int_lt 0 dst_port in
      let socket_call = opened_socket sock ∷ [] in
      let bind_call = if binds then bound sock (src_port % 2 ^ 16) ∷ [] else [] in
      let connect_call = if connects then connected sock (dst_port % 2 ^ 16) ∷ [] else [] in
      if int_lt sock 0
      then ([], minus_one)
      else if binds && env.bind == minus_one
      then (socket_call, minus_one)
      else if connects && env.connect == minus_one
      then (socket_call ++ bind_call, minus_one)
      else (socket_call ++ bind_call ++ connect_call, sock)

  -- The first datagram is looked at, and the socket is connected to where it came from.
  unfoldable pub wait_for_client : ℕ → List Call × ℕ
  wait_for_client sfd =
      if env.recvfrom == 2 ^ 64 - 1
      then ([], minus_one)
      else if env.connect_peer == minus_one
      then (peeked sfd ∷ [], minus_one)
      else (peeked sfd ∷ connected_peer sfd ∷ [], 0)

  -- The input: 0 is the standard input.
  unfoldable pub input_of : Option String → List Call × ℕ
  input_of none = ([], 0)
  input_of (some name) =
      let fd = env.open_file name in
      if env.strcmp name "stdin" == 0
      then ([], 0)
      else ((if int_lt fd 0 then [] else opened_input fd ∷ []), fd)

  unfoldable pub stats_of : Option String → List Call × Bool
  stats_of none = ([], false)
  stats_of (some name) = if env.fopen name then (opened_stats ∷ [], true) else ([], false)

  -- The sender, once its arguments are read
  unfoldable pub sender_run : Options → String → ℕ → List Call × ℕ
  sender_run o ip port =
      let (input_calls, infile_fd) = input_of o.filename in
      let (stats_calls, stats_file) = stats_of o.stats_filename in
      let address = if env.strcmp "localhost" ip == 0 then "::1" else ip in
      let (socket_calls, sfd) = create_socket false minus_one true port in
      let close_input = if infile_fd == 0 then [] else closed infile_fd ∷ [] in
      let close_stats = if stats_file then closed_stats ∷ [] else [] in
      if int_lt infile_fd minus_one
      then (input_calls, 1)
      else if is_error (real_address (some address) true)
      then (input_calls ++ stats_calls, 1)
      else if int_lt sfd 0
      then (input_calls ++ stats_calls ++ socket_calls, 1)
      else (
        (input_calls ++ stats_calls ++ socket_calls)
            ++ (looped sfd infile_fd stats_file ∷ closed sfd ∷ close_input ++ close_stats),
        0,
      )

  -- `main` of the sender: the options that `getopt` finds and the positional arguments.
  unfoldable pub sender_main : List Opt → List String → List Call × ℕ
  sender_main opts (ip ∷ port ∷ []) = elim (sender_options opts no_options) [
    | none ↦ ([], 1)
    | some o ↦
        let (number, rest) = env.strtol port in
        elim rest [ [] ↦ sender_run o ip (number % 2 ^ 16) | _ ∷ _ ↦ ([], 1) ]
  ]
  sender_main opts _ = ([], 1)

  -- Zero, and the socket in `sfd`, if a sender is there
  unfoldable pub connection_to_sender : String → ℕ → List Call × ℕ × ℕ
  connection_to_sender listen_ip listen_port =
      let (socket_calls, sfd) = create_socket true listen_port false minus_one in
      let (client_calls, waited) = wait_for_client sfd in
      if is_error (real_address (some listen_ip) true)
      then ([], 0, 1)
      else if int_lt sfd 0
      then (socket_calls, sfd, 1)
      else if waited == minus_one
      then (socket_calls ++ client_calls, sfd, 1)
      else (socket_calls ++ client_calls, sfd, 0)

  -- The receiver, once its arguments are read
  unfoldable pub receiver_run : Option String → String → ℕ → List Call × ℕ
  receiver_run stats_filename ip port =
      let (stats_calls, stats_file) = stats_of stats_filename in
      let listen_ip = if env.strcmp "localhost" ip == 0 then "::" else ip in
      let (calls, sfd, failed) = connection_to_sender listen_ip port in
      let close_stats = if stats_file then closed_stats ∷ [] else [] in
      if not (failed == 0)
      then (stats_calls ++ calls, 1)
      else ((stats_calls ++ calls) ++ (looped sfd 1 stats_file ∷ closed sfd ∷ close_stats), 0)

  unfoldable pub receiver_main : List Opt → List String → List Call × ℕ
  receiver_main opts (ip ∷ port ∷ []) = elim (receiver_options opts none) [
    | none ↦ ([], 1)
    | some stats_filename ↦
        let (number, rest) = env.strtol port in
        elim rest [ [] ↦ receiver_run stats_filename ip (number % 2 ^ 16) | _ ∷ _ ↦ ([], 1) ]
  ]
  receiver_main opts _ = ([], 1)
