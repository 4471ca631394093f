-- ===== src/Cli/Teardown.antt =====
-- What `caravel connect` of go/cmd/caravel leaves behind.
use caravel.Prelude.{
  ℤ, pos, ◌≡◌, ◌≢◌, refl, Bool, true, false, not, none, some, List, [], ◌∷◌, Bool-cases, inl, inr,
  ok, err, panic, Option, Result,
}
use caravel.Prelude.Text.{Text, bytes}
use caravel.Profile.Types.{Tunnel}
use caravel.Core.Connect.{config_of}
use caravel.Core.Resolve.{mtu_over}
use caravel.Vp.Device.{Event, dup_fd, close_fd, open_dev, close_dev, up}
use caravel.Routes.{
  Command, Linux, Routes, connect_routes, on_device, after_up, finish, configure_network,
}
use caravel.Routes.Laws.{Undone, IsSettled, connect_routes-IsSettled}
use caravel.Cli.Flags
use caravel.Cli.{cmd_connect, cmd_connect_linux, hold_tunnel, connect_on}
use caravel.Cli.Process.{World, State, Output}
use caravel.Cli.Laws.{Ends, or_stop-Ends}

-- Whether a TUN device is open after the events.
abbrev pub is_open : List Event → Bool
is_open [] = false
is_open (open_dev _ ∷ _) = true
is_open (close_dev ∷ _) = false
is_open (dup_fd ∷ earlier) = is_open earlier
is_open (close_fd ∷ earlier) = is_open earlier

-- The log ends in the deletions of the routes that its commands set, and no TUN device is open.
abbrev pub IsClean : State → Type 0
IsClean st =
    ((ran : List (Command × Bool)) × Undone ran st.routes.ran) × (is_open st.events ≡ false)

abbrev LeavesNothing : Result Output × State → Type 0
LeavesNothing x = x.0 ≢ panic → IsClean x.1

-- A connect that fails has closed its device, or opened none.
abbrev Closes : Result Text × Routes × List Event → Type 0
Closes (err _, _, events) = is_open events ≡ false
Closes (ok _, _, _) = Unit {0}
Closes (panic, _, _) = Unit {0}

module _ (L : Linux) where
  finish-Closes :
      (iface : Text) (events : List Event) (k : Result (Unit {0}) × Routes)
      → Closes (finish L iface events k)
  unfolding finish
  finish-Closes iface events (ok _, r) = tt
  finish-Closes iface events (err e, r) = refl
  finish-Closes iface events (panic, r) = tt

  after_up-Closes :
      (t : Tunnel) (iface : Text) (mtu : ℤ) (full : Bool) (u : Result (Unit {0}) × List Event)
      → Closes (after_up L t iface mtu full u)
  unfolding after_up
  after_up-Closes t iface mtu full (err e, events) = refl
  after_up-Closes t iface mtu full (panic, events) = tt
  after_up-Closes t iface mtu full (ok _, events) =
      finish-Closes iface events
        (configure_network L t iface mtu full (record { ran = []; undo = [] }))

  on_device-Closes :
      (t : Tunnel) (mtu : ℤ) (full makes_tun : Bool) (name : Option Text)
      → Closes (on_device L t mtu full makes_tun name)
  unfolding on_device
  on_device-Closes t mtu full false name = refl
  on_device-Closes t mtu full true none = refl
  on_device-Closes t mtu full true (some iface) =
      after_up-Closes t iface mtu full (up L.decode_base64 L.awg (config_of t) (open_dev mtu ∷ []))

  connect_routes-Closes : (t : Tunnel) (full : Bool) → Closes (connect_routes L t full)
  unfolding connect_routes
  connect_routes-Closes t full =
      on_device-Closes t (mtu_over t.mtu (pos 1420)) full (L.makes_tun (mtu_over t.mtu (pos 1420)))
        L.dev_name

  hold_tunnel-LeavesNothing :
      (st : State) (r : Result Text × Routes × List Event)
      → IsSettled L r.0 r.1
      → Closes r
      → LeavesNothing (hold_tunnel L st r)
  unfolding hold_tunnel
  hold_tunnel-LeavesNothing st (ok iface, r, events) settled closes returns =
      ((r.ran, settled), refl)
  hold_tunnel-LeavesNothing st (err e, r, events) settled closes returns = (settled, closes)
  hold_tunnel-LeavesNothing st (panic, r, events) settled closes returns = absurd (returns refl)

module _ (W : World) (args : List Text) (st : State) (clean : IsClean st) where
  cmd_connect_linux-LeavesNothing : (L : Linux) → Ends LeavesNothing (cmd_connect_linux W L args st)
  unfolding cmd_connect_linux
  cmd_connect_linux-LeavesNothing L =
      or_stop-Ends _ st (λ _ _. clean)
        λ r _.
          or_stop-Ends _ st (λ _ _. clean)
            λ name _.
              or_stop-Ends _ st (λ _ _. clean)
                λ t _.
                  let full = not (Flags.bool_of (bytes "no-default-route") r.0) in
                  elim (Bool-cases W.is_root) [
                    | inl e ↦ rw e (record {
                      holds =
                          hold_tunnel-LeavesNothing L st (connect_routes L t full)
                            (connect_routes-IsSettled L t full) (connect_routes-Closes L t full);
                    })
                    | inr e ↦ rw e (record { holds = λ _. clean })
                  ]

  connect_on-LeavesNothing : (l : Option Linux) → Ends LeavesNothing (connect_on W l args st)
  unfolding connect_on
  connect_on-LeavesNothing none = record { holds = λ _. clean }
  connect_on-LeavesNothing (some L) = cmd_connect_linux-LeavesNothing L

  -- `caravel connect` leaves the host clean, however it ends, by an error at any of its steps or by
  -- an interrupt: after its other commands `ip route del` has been run for each route that they set,
  -- the last one first, and its TUN device is closed.
  pub cmd_connect-IsClean : (cmd_connect W args st).0 ≢ panic → IsClean (cmd_connect W args st).1
  unfolding cmd_connect
  cmd_connect-IsClean returns = (connect_on-LeavesNothing W.linux).holds returns
