-- ===== src/Programs/Exit.antt =====
-- How src/sender.c and src/receiver.c end: with what exit code, and what is open still.
use Prim.Native.String.{String}
use linfo1341_project.Common.{
  ℕ, ◌+◌, ◌-◌, ◌%◌, ◌^◌, ◌≡◌, ◌≢◌, inl, inr, refl, Bool, true, false, Bool-cases, Option-cases,
  Option, none, some, List, [], ◌∷◌, ◌++◌, ◌==◌, if◌then◌else◌, arith,
}
use linfo1341_project.Stats.{int_lt}
use linfo1341_project.Programs.{
  Env, Call, closed, closed_stats, looped, Opt, Options, no_options, minus_one, is_error,
  sender_options, receiver_options, real_address, create_socket, wait_for_client, input_of,
  stats_of, sender_run, sender_main, connection_to_sender, receiver_run, receiver_main,
}
use linfo1341_project.Programs.Descriptors.{
  opens, closes, opens_stats, closes_stats, runs_loop, count, count-append, Opens, Opens-append,
  Ends, one_if, nothing, none-Opens, create_socket-Opens, input_of-Opens, stats_of-Opens,
}

-- The loop on a socket and `fd`, and the calls behind it; `infile` is closed unless it is 0.
abbrev after_loop : (sfd fd infile : ℕ) → (stats : Bool) → List Call
after_loop sfd fd infile stats =
    looped sfd fd stats ∷ closed sfd ∷ (if infile == 0 then [] else closed infile ∷ [])
    ++ (if stats then closed_stats ∷ [] else [])

Ends-after_loop :
    (calls : List Call) (opened : ℕ → ℕ) (files sfd fd infile : ℕ) (stats : Bool)
    → Opens calls opened files
    → files ≡ (if stats then 1 else 0)
    → ((fd : ℕ)
        → opened fd
          ≡ (if sfd == fd then 1 else 0)
            + (if infile == 0 then 0 else if infile == fd then 1 else 0))
    → Ends (calls ++ after_loop sfd fd infile stats, 0)
unfolding count
Ends-after_loop calls opened files sfd fd infile stats o e same = inl (
  refl,
  ground (arith, count-append runs_loop calls (after_loop sfd fd infile stats), o.no_loop),
  record {
    descriptors = λ n k. ground (
      arith,
      count-append (opens n) calls (after_loop sfd fd infile stats),
      count-append (closes n) calls (after_loop sfd fd infile stats),
      o.opens_fd n k,
      o.closes_fd n,
      same n,
    );
    stats = ground (
      arith,
      count-append opens_stats calls (after_loop sfd fd infile stats),
      count-append closes_stats calls (after_loop sfd fd infile stats),
      o.stats_opened,
      o.stats_closed,
      e,
    );
  },
)

-- The port is a number, or the program fails.
numbered-Ends :
    (rest : List ℕ) {run : List Call × ℕ}
    → Ends run
    → Ends (elim rest [ [] ↦ run | _ ∷ _ ↦ ([], 1) ])
unfolding count
numbered-Ends [] ends = ends
numbered-Ends (_ ∷ _) ends = inr (refl, refl)

module _ (env : Env) where
  wait_for_client-Opens : (sfd : ℕ) → Opens ((wait_for_client env sfd).0) (nothing env) 0
  unfolding wait_for_client count
  wait_for_client-Opens sfd = elim (Bool-cases (env.recvfrom == 2 ^ 64 - 1)) [
    | inl e ↦ rw e (none-Opens env)
    | inr e ↦ elim (Bool-cases (env.connect_peer == minus_one)) [
      | inl f ↦
          rw (e, f)
            record {
              opens_fd = λ fd n. refl;
              closes_fd = λ fd. refl;
              stats_opened = refl;
              stats_closed = refl;
              no_loop = refl;
            }
      | inr f ↦
          rw (e, f)
            record {
              opens_fd = λ fd n. refl;
              closes_fd = λ fd. refl;
              stats_opened = refl;
              stats_closed = refl;
              no_loop = refl;
            }
    ]
  ]

  sender_run-Ends :
      ((name : String) → env.open_file name ≢ 0)
      → (o : Options) (ip : String) (port : ℕ) → Ends (sender_run env o ip port)
  unfolding sender_run
  sender_run-Ends stdin_open o ip port =
      let input = input_of-Opens env stdin_open o.filename in
      let stats = stats_of-Opens env o.stats_filename in
      let (quiet, made) = create_socket-Opens env false minus_one true port in
      let address = if env.strcmp "localhost" ip == 0 then "::1" else ip in
      let input_calls = (input_of env o.filename).0 in
      let infile_fd = (input_of env o.filename).1 in
      let stats_calls = (stats_of env o.stats_filename).0 in
      let stats_file = (stats_of env o.stats_filename).1 in
      let socket_calls = (create_socket env false minus_one true port).0 in
      let sfd = (create_socket env false minus_one true port).1 in
      elim (Bool-cases (int_lt infile_fd minus_one)) [
        | inl e ↦ rw e (inr (refl, input.no_loop))
        | inr e ↦ elim (Bool-cases (is_error (real_address env (some address) true))) [
          | inl f ↦
              rw (e, f)
                (inr (
                  refl,
                  omega (
                    arith,
                    count-append runs_loop input_calls stats_calls,
                    input.no_loop,
                    stats.no_loop,
                  ),
                ))
          | inr f ↦ elim made [
            | inl g ↦
                rw (e, f, g)
                  (inr (
                    refl,
                    omega (
                      arith,
                      count-append runs_loop (input_calls ++ stats_calls) socket_calls,
                      count-append runs_loop input_calls stats_calls,
                      input.no_loop,
                      stats.no_loop,
                      quiet,
                    ),
                  ))
            | inr (g, opened) ↦
                let infile = λ (n : ℕ). if infile_fd == 0 then 0 else one_if env infile_fd n in
                let files = if stats_file then 1 else 0 in
                let both =
                  Opens-append input_calls stats_calls infile (nothing env) 0 files input stats in
                let all =
                  Opens-append (input_calls ++ stats_calls) socket_calls (λ n. infile n + 0)
                    (λ n. one_if env sfd n + (0 + 0)) (0 + files) 0 both opened in
                rw (e, f, g)
                  (Ends-after_loop (input_calls ++ stats_calls ++ socket_calls)
                    (λ n. infile n + 0 + (one_if env sfd n + (0 + 0))) (0 + files + 0) sfd infile_fd
                    infile_fd stats_file all (omega arith) λ fd. omega arith)
          ]
        ]
      ]

  receiver_run-Ends :
      (stats_filename : Option String) (ip : String) (port : ℕ)
      → Ends (receiver_run env stats_filename ip port)
  unfolding receiver_run connection_to_sender count
  receiver_run-Ends stats_filename ip port =
      let stats = stats_of-Opens env stats_filename in
      let (quiet, made) = create_socket-Opens env true port false minus_one in
      let listen_ip = if env.strcmp "localhost" ip == 0 then "::" else ip in
      let stats_calls = (stats_of env stats_filename).0 in
      let stats_file = (stats_of env stats_filename).1 in
      let socket_calls = (create_socket env true port false minus_one).0 in
      let sfd = (create_socket env true port false minus_one).1 in
      let client_calls = (wait_for_client env sfd).0 in
      let client = wait_for_client-Opens sfd in
      elim (Bool-cases (is_error (real_address env (some listen_ip) true))) [
        | inl f ↦
            rw f (inr (refl, omega (arith, count-append runs_loop stats_calls [], stats.no_loop)))
        | inr f ↦ elim made [
          | inl g ↦
              rw (f, g)
                (inr (
                  refl,
                  omega (
                    arith,
                    count-append runs_loop stats_calls socket_calls,
                    stats.no_loop,
                    quiet,
                  ),
                ))
          | inr (g, opened) ↦ elim (Bool-cases ((wait_for_client env sfd).1 == minus_one)) [
            | inl h ↦
                rw (f, g, h)
                  (inr (
                    refl,
                    omega (
                      arith,
                      count-append runs_loop stats_calls (socket_calls ++ client_calls),
                      count-append runs_loop socket_calls client_calls,
                      stats.no_loop,
                      quiet,
                      client.no_loop,
                    ),
                  ))
            | inr h ↦
                let both =
                  Opens-append socket_calls client_calls (λ fd. one_if env sfd fd + (0 + 0))
                    (nothing env) 0 0 opened client in
                let files = if stats_file then 1 else 0 in
                let all =
                  Opens-append stats_calls (socket_calls ++ client_calls) (nothing env)
                    (λ n. one_if env sfd n + (0 + 0) + 0) files 0 stats both in
                rw (f, g, h)
                  (Ends-after_loop (stats_calls ++ (socket_calls ++ client_calls))
                    (λ n. 0 + (one_if env sfd n + (0 + 0) + 0)) (files + 0) sfd 1 0 stats_file all
                    (omega arith) λ fd. omega arith)
          ]
        ]
      ]

  -- If `open` never gives the descriptor 0, the sender, whatever its arguments and the results
  -- of the calls, either succeeds, having run its loop once and closed every descriptor and file
  -- that it opened as often as it opened it, or fails with exit code 1 without having run the
  -- loop.
  pub sender_main-Ends :
      ((name : String) → env.open_file name ≢ 0)
      → (opts : List Opt) (positional : List String) → Ends (sender_main env opts positional)
  unfolding sender_main count
  sender_main-Ends stdin_open opts [] = inr (refl, refl)
  sender_main-Ends stdin_open opts (ip ∷ []) = inr (refl, refl)
  sender_main-Ends stdin_open opts (ip ∷ port ∷ more ∷ rest) = inr (refl, refl)
  sender_main-Ends stdin_open opts (ip ∷ port ∷ []) =
      elim (Option-cases (sender_options opts no_options)) [
        | inl e ↦ rw (e, sender_main) (inr (refl, refl))
        | inr (o, e) ↦
            rw (e, sender_main)
              (numbered-Ends (env.strtol port).1
                (sender_run-Ends stdin_open o ip ((env.strtol port).0 % 2 ^ 16)))
      ]

  -- The receiver, whatever its arguments and the results of the calls, either succeeds, having
  -- run its loop once and closed every descriptor and file that it opened as often as it opened
  -- it, or fails with exit code 1 without having run the loop.
  pub receiver_main-Ends :
      (opts : List Opt) (positional : List String) → Ends (receiver_main env opts positional)
  unfolding receiver_main count
  receiver_main-Ends opts [] = inr (refl, refl)
  receiver_main-Ends opts (ip ∷ []) = inr (refl, refl)
  receiver_main-Ends opts (ip ∷ port ∷ more ∷ rest) = inr (refl, refl)
  receiver_main-Ends opts (ip ∷ port ∷ []) = elim (Option-cases (receiver_options opts none)) [
    | inl e ↦ rw (e, receiver_main) (inr (refl, refl))
    | inr (o, e) ↦
        rw (e, receiver_main)
          (numbered-Ends (env.strtol port).1
            (receiver_run-Ends o ip ((env.strtol port).0 % 2 ^ 16)))
  ]
