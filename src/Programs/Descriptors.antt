-- ===== src/Programs/Descriptors.antt =====
-- Descriptors and exit codes of src/sender.c and src/receiver.c.
use Prim.Native.String.{String}
use linfo1341_project.Common.{
  ℕ, ◌+◌, ◌%◌, ◌^◌, ◌≡◌, ◌≢◌, ◌⊎◌, inl, inr, refl, Bool, true, false, ◌&&◌, Bool-cases, Option,
  none, some, List, [], ◌∷◌, ◌++◌, ◌==◌, if◌then◌else◌, arith,
}
use linfo1341_project.Stats.{int_lt}
use linfo1341_project.Programs.{
  Env, Call, opened_socket, opened_input, opened_stats, closed, closed_stats, looped, bound,
  connected, minus_one, create_socket, input_of, stats_of,
}

abbrev pub opens : ℕ → Call → Bool
opens fd (opened_socket n) = n == fd
opens fd (opened_input n) = n == fd
opens fd _ = false

abbrev pub closes : ℕ → Call → Bool
closes fd (closed n) = n == fd
closes fd _ = false

abbrev pub opens_stats : Call → Bool
opens_stats opened_stats = true
opens_stats _ = false

abbrev pub closes_stats : Call → Bool
closes_stats closed_stats = true
closes_stats _ = false

abbrev pub runs_loop : Call → Bool
runs_loop (looped _ _ _) = true
runs_loop _ = false

unfoldable pub count : (Call → Bool) → List Call → ℕ
count test [] = 0
count test (call ∷ rest) = (if test call then 1 else 0) + count test rest

pub count-append :
    (test : Call → Bool) (xs ys : List Call) → count test (xs ++ ys) ≡ count test xs + count test ys
unfolding count
count-append test [] ys = omega arith
count-append test (x ∷ xs) ys = omega (arith, count-append test xs ys)

-- Calls before the loop: what they leave open
pub record Opens (calls : List Call) (opened : ℕ → ℕ) (stats : ℕ) : Type 0 where
  pub opens_fd : (fd : ℕ) → int_lt fd 0 ≡ false → count (opens fd) calls ≡ opened fd
  pub closes_fd : (fd : ℕ) → count (closes fd) calls ≡ 0
  pub stats_opened : count opens_stats calls ≡ stats
  pub stats_closed : count closes_stats calls ≡ 0
  pub no_loop : count runs_loop calls ≡ 0

pub Opens-append :
    (xs ys : List Call) (f g : ℕ → ℕ) (s t : ℕ)
    → Opens xs f s
    → Opens ys g t
    → Opens (xs ++ ys) (λ fd. f fd + g fd) (s + t)
Opens-append xs ys f g s t p q = record {
  opens_fd = λ fd n. omega (arith, count-append (opens fd) xs ys, p.opens_fd fd n, q.opens_fd fd n);
  closes_fd = λ fd. omega (arith, count-append (closes fd) xs ys, p.closes_fd fd, q.closes_fd fd);
  stats_opened = omega (arith, count-append opens_stats xs ys, p.stats_opened, q.stats_opened);
  stats_closed = omega (arith, count-append closes_stats xs ys, p.stats_closed, q.stats_closed);
  no_loop = omega (arith, count-append runs_loop xs ys, p.no_loop, q.no_loop);
}

-- Everything opened is closed, once each.
pub record IsBalanced (calls : List Call) : Type 0 where
  pub descriptors :
      (fd : ℕ) → int_lt fd 0 ≡ false → count (opens fd) calls ≡ count (closes fd) calls
  pub stats : count opens_stats calls ≡ count closes_stats calls

-- The program ran its loop, closed everything and succeeds, or fails before the loop.
abbrev pub Ends : List Call × ℕ → Type 0
Ends (calls, status) =
    ((status ≡ 0) × (count runs_loop calls ≡ 1) × IsBalanced calls)
    ⊎ ((status ≡ 1) × (count runs_loop calls ≡ 0))

module _ (env : Env) where
  abbrev pub one_if : ℕ → ℕ → ℕ
  one_if n fd = if n == fd then 1 else 0

  abbrev pub nothing : ℕ → ℕ
  nothing fd = 0

  pub none-Opens : Opens [] nothing 0
  unfolding count
  none-Opens = record {
    opens_fd = λ fd n. refl;
    closes_fd = λ fd. refl;
    stats_opened = refl;
    stats_closed = refl;
    no_loop = refl;
  }

  bound-Opens :
      (test : Bool) (fd port : ℕ) → Opens (if test then bound fd port ∷ [] else []) nothing 0
  unfolding count
  bound-Opens true fd port = record {
    opens_fd = λ fd n. refl;
    closes_fd = λ fd. refl;
    stats_opened = refl;
    stats_closed = refl;
    no_loop = refl;
  }
  bound-Opens false fd port = none-Opens

  connected-Opens :
      (test : Bool) (fd port : ℕ) → Opens (if test then connected fd port ∷ [] else []) nothing 0
  unfolding count
  connected-Opens true fd port = record {
    opens_fd = λ fd n. refl;
    closes_fd = λ fd. refl;
    stats_opened = refl;
    stats_closed = refl;
    no_loop = refl;
  }
  connected-Opens false fd port = none-Opens

  socket-Opens : (sock : ℕ) → Opens (opened_socket sock ∷ []) (one_if sock) 0
  unfolding count
  socket-Opens sock = record {
    opens_fd = λ fd n. omega arith;
    closes_fd = λ fd. refl;
    stats_opened = refl;
    stats_closed = refl;
    no_loop = refl;
  }

  -- When there is a socket, it is the only one opened; otherwise the program fails.
  pub create_socket-Opens :
      (source : Bool) (src_port : ℕ) (dest : Bool) (dst_port : ℕ)
      → let (calls, sfd) = create_socket env source src_port dest dst_port in
        (count runs_loop calls ≡ 0)
        × ((int_lt sfd 0 ≡ true)
            ⊎ ((int_lt sfd 0 ≡ false) × Opens calls (λ fd. one_if sfd fd + (0 + 0)) 0))
  unfolding create_socket count
  create_socket-Opens source src_port dest dst_port =
      let sock = env.socket in
      let binds = source && int_lt 0 src_port in
      let connects = dest && int_lt 0 dst_port in
      let bind_call = bound-Opens binds sock (src_port % 2 ^ 16) in
      let connect_call = connected-Opens connects sock (dst_port % 2 ^ 16) in
      let until_bind = Opens-append _ _ (one_if sock) nothing 0 0 (socket-Opens sock) bind_call in
      let all =
        Opens-append _ _ (one_if sock) (λ fd. 0 + 0) 0 0 (socket-Opens sock)
          (Opens-append _ _ nothing nothing 0 0 bind_call connect_call) in
      elim (Bool-cases (int_lt sock 0)) [
        | inl e ↦ rw e (refl, inl refl)
        | inr e ↦ elim (Bool-cases (binds && env.bind == minus_one)) [
          | inl b ↦ rw (e, b) (refl, inl refl)
          | inr b ↦ elim (Bool-cases (connects && env.connect == minus_one)) [
            | inl c ↦ rw (e, b, c) (until_bind.no_loop, inl refl)
            | inr c ↦ rw (e, b, c) (all.no_loop, inr (e, all))
          ]
        ]
      ]

  -- The input, and what has to be closed again
  pub input_of-Opens :
      ((name : String) → env.open_file name ≢ 0)
      → (name : Option String)
      → let (calls, fd) = input_of env name in
        Opens calls (λ n. if fd == 0 then 0 else one_if fd n) 0
  unfolding input_of count
  input_of-Opens stdin_open none = none-Opens
  input_of-Opens stdin_open (some name) = elim (Bool-cases (env.strcmp name "stdin" == 0)) [
    | inl e ↦ rw e none-Opens
    | inr e ↦
        let fd = env.open_file name in
        let other : (fd == 0) ≡ false = ground (arith, stdin_open name) in
        elim (Bool-cases (int_lt fd 0)) [
          | inl f ↦
              rw (e, f, other)
                record {
                  opens_fd = λ n k. ground (arith, f, k);
                  closes_fd = λ n. refl;
                  stats_opened = refl;
                  stats_closed = refl;
                  no_loop = refl;
                }
          | inr f ↦
              rw (e, f, other)
                record {
                  opens_fd = λ n k. omega arith;
                  closes_fd = λ n. refl;
                  stats_opened = refl;
                  stats_closed = refl;
                  no_loop = refl;
                }
        ]
  ]

  pub stats_of-Opens :
      (name : Option String)
      → let (calls, stats) = stats_of env name in Opens calls nothing (if stats then 1 else 0)
  unfolding stats_of count
  stats_of-Opens none = none-Opens
  stats_of-Opens (some name) = elim (Bool-cases (env.fopen name)) [
    | inl e ↦ rw e record {
      opens_fd = λ n k. refl;
      closes_fd = λ n. refl;
      stats_opened = refl;
      stats_closed = refl;
      no_loop = refl;
    }
    | inr e ↦ rw e none-Opens
  ]
