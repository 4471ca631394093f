-- ===== src/Cli/Laws.antt =====
-- What the subcommands of go/cmd/caravel do with their arguments, and what they leave behind.
use caravel.Prelude.{
  ◌≡◌, refl, Bool, false, none, some, List, [], ◌∷◌, any_of, arith, Bool-cases, inl, inr, ok, err,
  panic, Option, Result,
}
use caravel.Prelude.Text.{Text, bytes, ◌==◌}
use caravel.Vp.Device.{Event}
use caravel.Routes.{Linux, Routes}
use caravel.Cli.Flags
use caravel.Cli.Flags.{Flag, word_of, plain}
use caravel.Cli.Flags.Laws.{parse_from-operand}
use caravel.Cli.{
  enroll_flags, sync_flags, connect_flags, cmd_enroll, cmd_sync, cmd_list, cmd_inspect, cmd_connect,
  cmd_connect_linux, hold_tunnel, connect_on, dispatch,
}
use caravel.Cli.Process.{World, State, Output, or_stop}

-- The subcommands whose usage puts flags behind an operand.
pub data HasFlags : Text → Type 0 where
  enroll : HasFlags (bytes "enroll")
  sync : HasFlags (bytes "sync")
  connect : HasFlags (bytes "connect")
  up : HasFlags (bytes "up")

pub parse-operand :
    (fs : List Flag) (name : Text) (rest : List Text)
    → word_of name ≡ plain
    → Flags.parse fs (name ∷ rest) ≡ ok ([], name ∷ rest)
unfolding Flags.parse
parse-operand fs name rest h = parse_from-operand fs (name ∷ rest) [] h

module _ (W : World) (name : Text) (rest : List Text) (st : State) (h : word_of name ≡ plain) where
  cmd_enroll-operand : cmd_enroll W (name ∷ rest) st ≡ cmd_enroll W (name ∷ []) st
  unfolding cmd_enroll or_stop
  cmd_enroll-operand =
      rw (parse-operand enroll_flags name rest h, parse-operand enroll_flags name [] h) refl

  cmd_sync-operand : cmd_sync W (name ∷ rest) st ≡ cmd_sync W (name ∷ []) st
  unfolding cmd_sync or_stop
  cmd_sync-operand =
      rw (parse-operand sync_flags name rest h, parse-operand sync_flags name [] h) refl

  connect_on-operand :
      (l : Option Linux) → connect_on W l (name ∷ rest) st ≡ connect_on W l (name ∷ []) st
  unfolding connect_on cmd_connect_linux or_stop
  connect_on-operand none = refl
  connect_on-operand (some L) =
      rw (parse-operand connect_flags name rest h, parse-operand connect_flags name [] h) refl

  cmd_connect-operand : cmd_connect W (name ∷ rest) st ≡ cmd_connect W (name ∷ []) st
  unfolding cmd_connect
  cmd_connect-operand = connect_on-operand W.linux

  -- Flags behind the operand of enroll, sync and connect are ignored, `--no-default-route` and
  -- `--node` among them: the command does what it does without them.
  pub dispatch-operand :
      (cmd : Text)
      → HasFlags cmd
      → dispatch W (cmd ∷ name ∷ rest) st ≡ dispatch W (cmd ∷ name ∷ []) st
  unfolding dispatch ◌==◌
  dispatch-operand _ enroll = cmd_enroll-operand
  dispatch-operand _ sync = cmd_sync-operand
  dispatch-operand _ connect = cmd_connect-operand
  dispatch-operand _ up = cmd_connect-operand

-- The subcommands that change the store.
abbrev pub writes : Text → Bool
writes cmd =
    any_of (λ t. cmd == t) (bytes "enroll" ∷ bytes "sync" ∷ bytes "rm" ∷ bytes "remove" ∷ [])

-- What holds of the result of a command and the state that it leaves.
pub record Ends (Q : Result Output × State → Type 0) (r : Result Output × State) : Type 0 where
  pub holds : Q r

pub or_stop-Ends :
    {Q : Result Output × State → Type 0} {A : Type 0} (r : Result A) (st : State)
    → {rest : A → Result Output × State} → ((x : Result Output) → Q (x, st))
    → ((a : A) → r ≡ ok a → Ends Q (rest a))
    → Ends Q (or_stop r st rest)
unfolding or_stop
or_stop-Ends (ok a) st q h = h a refl
or_stop-Ends (err e) st q h = record { holds = q (err e) }
or_stop-Ends panic st q h = record { holds = q panic }

hold_tunnel-Ends :
    (L : Linux) (st : State) (r : Result Text × Routes × List Event)
    → Ends (λ x. x.1.disk ≡ st.disk) (hold_tunnel L st r)
unfolding hold_tunnel
hold_tunnel-Ends L st (ok _, r, events) = record { holds = refl }
hold_tunnel-Ends L st (err _, r, events) = record { holds = refl }
hold_tunnel-Ends L st (panic, r, events) = record { holds = refl }

module _ (W : World) (args : List Text) (st : State) where
  abbrev KeepsDisk : Result Output × State → Type 0
  KeepsDisk = Ends (λ x. x.1.disk ≡ st.disk)

  cmd_list-KeepsDisk : KeepsDisk (cmd_list W args st)
  unfolding cmd_list
  cmd_list-KeepsDisk =
      or_stop-Ends _ st (λ _. refl)
        λ r _.
          or_stop-Ends _ st (λ _. refl)
            λ s _. elim (Bool-cases (Flags.bool_of (bytes "json") r.0)) [
              | inl e ↦ rw e (or_stop-Ends _ st (λ _. refl) λ out _. record { holds = refl })
              | inr e ↦ rw e (or_stop-Ends _ st (λ _. refl) λ out _. record { holds = refl })
            ]

  cmd_inspect-KeepsDisk : KeepsDisk (cmd_inspect W args st)
  unfolding cmd_inspect
  cmd_inspect-KeepsDisk =
      or_stop-Ends _ st (λ _. refl)
        λ name _. or_stop-Ends _ st (λ _. refl) λ p _. record { holds = refl }

  cmd_connect_linux-KeepsDisk : (L : Linux) → KeepsDisk (cmd_connect_linux W L args st)
  unfolding cmd_connect_linux
  cmd_connect_linux-KeepsDisk L =
      or_stop-Ends _ st (λ _. refl)
        λ r _.
          or_stop-Ends _ st (λ _. refl)
            λ name _.
              or_stop-Ends _ st (λ _. refl)
                λ t _. elim (Bool-cases W.is_root) [
                  | inl e ↦ rw e (hold_tunnel-Ends L st _)
                  | inr e ↦ rw e (record { holds = refl })
                ]

  connect_on-KeepsDisk : (l : Option Linux) → KeepsDisk (connect_on W l args st)
  unfolding connect_on
  connect_on-KeepsDisk none = record { holds = refl }
  connect_on-KeepsDisk (some L) = cmd_connect_linux-KeepsDisk L

  cmd_connect-KeepsDisk : KeepsDisk (cmd_connect W args st)
  unfolding cmd_connect
  cmd_connect-KeepsDisk = connect_on-KeepsDisk W.linux

  -- Every subcommand but enroll, sync and rm leaves the disk as it was.
  pub dispatch-disk :
      (cmd : Text) → writes cmd ≡ false → (dispatch W (cmd ∷ args) st).1.disk ≡ st.disk
  unfolding dispatch
  dispatch-disk cmd h =
      ground
        (arith, cmd_list-KeepsDisk.holds, cmd_inspect-KeepsDisk.holds, cmd_connect-KeepsDisk.holds)
