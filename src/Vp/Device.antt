-- ===== src/Vp/Device.antt =====
-- Up and Close of go/vp/engine.go. The descriptor of the TUN is followed by the events that open and
-- close it, the newest first.
use caravel.Prelude.{
  ℤ, Bool, true, false, Option, List, [], ◌∷◌, if◌then◌else◌, Result, ok, err, panic,
  configure_tunnel, bring_up_tunnel,
}
use caravel.Prelude.Text.{Text}
use caravel.Vp.Engine.{Config, uapi}

-- What happens to the descriptor: it is duplicated or closed, or a TUN device of an MTU takes it over,
-- which closes it when it is closed.
pub data Event : Type 0 where
  dup_fd : Event
  close_fd : Event
  open_dev : ℤ → Event
  close_dev : Event

-- Whether the duplicate is open after the events.
abbrev pub is_held : List Event → Bool
is_held [] = false
is_held (dup_fd ∷ _) = true
is_held (close_fd ∷ _) = false
is_held (close_dev ∷ _) = false
is_held (open_dev _ ∷ earlier) = is_held earlier

-- An operation on the descriptor, from the events so far to those by then.
abbrev pub Io : Type 0 → Type 0
Io A = List Event → Result A × List Event

-- amneziawg-go: whether IpcSet takes a configuration text, and whether the device then comes up. Its
-- Close closes the TUN device.
pub record Awg : Type 0 where
  pub ipc_set : Text → Bool
  pub comes_up : Text → Bool

module _ (decode_base64 : Text → Option Text) (A : Awg) where
  -- Up with its configuration text
  unfoldable pub up_with : Result Text → Io (Unit {0})
  up_with (err e) events = (err e, events)
  up_with panic events = (panic, events)
  up_with (ok text) events =
      if A.ipc_set text
      then if A.comes_up text then (ok tt, events) else (err bring_up_tunnel, close_dev ∷ events)
      else (err configure_tunnel, close_dev ∷ events)

  -- Up
  unfoldable pub up : Config → Io (Unit {0})
  unfolding up_with
  up cfg = up_with (uapi decode_base64 cfg)
