-- ===== src/Cli.antt =====
-- go/cmd/caravel/main.go, with cmdConnect of connect_linux.go and connect_other.go: the subcommands
-- over the engine. What a command prints is its result; the texts around it are left out.
pub mod Process
pub mod Flags
pub mod Laws
pub mod Connecting
pub mod Teardown
pub mod Removal
pub mod Journey
pub mod Tests
use mathlib.Core.List.{reverse}
use caravel.Prelude.{
  ℕ, Bool, true, false, not, ◌||◌, Option, none, some, List, [], ◌∷◌, ◌++◌, eqb, map, if◌then◌else◌,
  Result, ok, err, panic, ◌>>=◌, or_err, usage_error, subcommand_required, not_root, read_file,
  read_stdin, unknown_command, connect_unsupported,
}
use caravel.Prelude.Text.{Text, bytes, ◌==◌}
use caravel.Json.{Codec}
use caravel.Crypto.{Primitives}
use caravel.DeviceId
use caravel.DeviceId.{Bundle, Pem}
use caravel.Disk.{Disk}
use caravel.Enroll.Claim.{Device, Relay}
use caravel.Enroll.Link.{UrlParser, parse_link}
use caravel.Enroll.Pin.{Pki}
use caravel.Profile.Endpoint.{Words}
use caravel.Profile.Parse.{parse}
use caravel.Profile.Select.{select, node}
use caravel.Profile.Store
use caravel.Profile.Store.{Store, Entry, new_store, raw_of}
use caravel.Profile.Tunnel.{tunnel}
use caravel.Profile.Types.{ProfileJson, Profile, Tunnel, extension}
use caravel.Sync.{Network, Randomness}
use caravel.Sync.Calls.{Service}
use caravel.Core.{Marker, Host, init_store, sync_and_store, enroll}
use caravel.Core.Listing.{JsonProfile, list_profiles}
use caravel.Core.Resolve.{no_options}
use caravel.Core.Sidecars.{synced_extension, pid_extension, remove_all}
use caravel.Vp.Device.{Event, close_dev}
use caravel.Routes.{Linux, Routes, connect_routes, close_routes}
use caravel.Cli.Process.{
  World, State, Output, stored, entries, rows, shown, removed, disconnected, version_text,
  usage_text, store_dir, trim_newlines, or_stop,
}
use caravel.Cli.Flags
use caravel.Cli.Flags.{Flag, Values, value_of, bool_of, first_arg}

abbrev text_flag : Text → Flag
text_flag name = record { name = name; is_bool = false }

abbrev bool_flag : Text → Flag
bool_flag name = record { name = name; is_bool = true }

abbrev pub enroll_flags : List Flag
enroll_flags = text_flag (bytes "name") ∷ text_flag (bytes "platform") ∷ []

abbrev pub sync_flags : List Flag
sync_flags =
    text_flag (bytes "email")
    ∷ text_flag (bytes "password")
    ∷ bool_flag (bytes "password-stdin")
    ∷ []

abbrev pub list_flags : List Flag
list_flags = bool_flag (bytes "json") ∷ []

abbrev pub connect_flags : List Flag
connect_flags =
    text_flag (bytes "connection")
    ∷ text_flag (bytes "node")
    ∷ bool_flag (bytes "no-default-route")
    ∷ []

-- The one argument of inspect and rm.
abbrev only_arg : List Text → Result Text
only_arg (name ∷ []) = ok name
only_arg [] = err usage_error
only_arg (_ ∷ _ ∷ _) = err usage_error

-- A result over the disk alone, in the state.
abbrev pub with_disk : State → Result Text × Disk → Result Output × State
with_disk st (ok name, d) = (ok (stored name), record st { disk = d })
with_disk st (err e, d) = (err e, record st { disk = d })
with_disk st (panic, d) = (panic, record st { disk = d })

-- cmdConnect from connect on: an interrupt ends the wait, and the deferred Close follows.
unfoldable pub hold_tunnel :
    Linux → State → Result Text × Routes × List Event → Result Output × State
hold_tunnel L st (ok iface, r, events) =
    (ok (disconnected iface), record st { routes = close_routes L r; events = close_dev ∷ events })
hold_tunnel L st (err e, r, events) = (err e, record st { routes = r; events = events })
hold_tunnel L st (panic, r, events) = (panic, record st { routes = r; events = events })

module _ (W : World) where
  -- initStore, and profile.NewStore(storeDir())
  unfoldable pub open_store : Result Store
  unfolding store_dir init_store new_store
  open_store = init_store W.mkdir_all (store_dir W.caravel_home)

  -- A non-empty operand of a command with flags.
  abbrev operand : List Text → Result Text
  operand args = if first_arg args == [] then err usage_error else ok (first_arg args)

  -- cmdEnroll
  unfoldable pub cmd_enroll : List Text → State → Result Output × State
  unfolding open_store enroll
  cmd_enroll args st = or_stop (Flags.parse enroll_flags args) st λ (vs, rest).
      or_stop (operand rest) st λ link. or_stop (parse_link W.urls link) st λ _.
        or_stop open_store st λ s. with_disk st (
          enroll W.primitives W.pem W.profile_json W.bundle_json W.marker_json W.pki W.network
            W.host (some s) W.urls W.device W.relay W.service W.randomness link
            (value_of (bytes "name") [] vs) (value_of (bytes "platform") (bytes "caravel") vs)
            st.disk)

  -- The passphrase of cmdSync.
  unfoldable pub passphrase : Values → Result Text
  unfolding trim_newlines
  passphrase vs =
      if bool_of (bytes "password-stdin") vs
      then (or_err W.stdin read_stdin >>= λ b. ok (trim_newlines b))
      else ok (value_of (bytes "password") [] vs)

  -- cmdSync
  unfoldable pub cmd_sync : List Text → State → Result Output × State
  unfolding open_store passphrase
  cmd_sync args st = or_stop (Flags.parse sync_flags args) st λ (vs, rest).
      or_stop (operand rest) st λ src. or_stop (or_err (W.host.file src) read_file) st λ pid.
        or_stop (DeviceId.parse W.bundle_json pid) st λ _. or_stop (passphrase vs) st λ pw.
          or_stop open_store st λ s. with_disk st (
            sync_and_store W.primitives W.pem W.profile_json W.bundle_json W.marker_json W.pki
              W.network W.host (some s) W.service W.randomness pid (value_of (bytes "email") [] vs)
              pw st.disk)

  -- cmdList
  unfoldable pub cmd_list : List Text → State → Result Output × State
  unfolding open_store
  cmd_list args st = or_stop (Flags.parse list_flags args) st λ (vs, rest).
      or_stop open_store st λ s.
        if bool_of (bytes "json") vs
        then or_stop (list_profiles W.primitives W.profile_json (some s) W.glob st.disk) st
            (λ out. (ok (rows out), st))
        else or_stop (Store.list W.profile_json W.glob st.disk) st (λ es. (ok (entries es), st))

  -- The profile of a stored name, as inspect and connect read it.
  unfoldable pub load : Text → Disk → Result Profile
  unfolding open_store
  load name d =
      open_store >>= λ _. raw_of name d >>= λ raw. parse W.primitives W.profile_json raw no_options

  -- cmdInspect
  unfoldable pub cmd_inspect : List Text → State → Result Output × State
  unfolding load
  cmd_inspect args st =
      or_stop (only_arg args) st λ name. or_stop (load name st.disk) st λ p. (ok (shown p), st)

  -- The names that cmdRemove removes.
  abbrev pub forgotten : Text → List Text
  forgotten name = map (λ suf. name ++ suf) (extension ∷ synced_extension ∷ pid_extension ∷ [])

  -- cmdRemove, on a name without slashes
  unfoldable pub cmd_remove : List Text → State → Result Output × State
  unfolding open_store
  cmd_remove args st = or_stop (only_arg args) st λ name.
      or_stop open_store st
        λ _. (ok (removed name), record st { disk = remove_all (forgotten name) st.disk })

  -- The tunnel that cmdConnect dials.
  unfoldable pub chosen_tunnel : Text → Values → Disk → Result Tunnel
  unfolding load
  chosen_tunnel name vs d = load name d >>= λ p.
      select p (value_of (bytes "connection") [] vs) >>= λ cp.
      node cp (value_of (bytes "node") [] vs) >>= λ n. tunnel W.profile_json W.words n

  -- cmdConnect of connect_linux.go
  unfoldable pub cmd_connect_linux : Linux → List Text → State → Result Output × State
  unfolding chosen_tunnel hold_tunnel
  cmd_connect_linux L args st = or_stop (Flags.parse connect_flags args) st λ (vs, rest).
      or_stop (operand rest) st λ name. or_stop (chosen_tunnel name vs st.disk) st λ t.
        if W.is_root
        then hold_tunnel L st (connect_routes L t (not (bool_of (bytes "no-default-route") vs)))
        else (err not_root, st)

  -- cmdConnect, that of connect_other.go where the host is not Linux
  unfoldable pub connect_on : Option Linux → List Text → State → Result Output × State
  connect_on none args st = (err connect_unsupported, st)
  connect_on (some L) args st = cmd_connect_linux L args st

  unfoldable pub cmd_connect : List Text → State → Result Output × State
  unfolding connect_on
  cmd_connect args st = connect_on W.linux args st

  -- The switch of dispatch
  unfoldable pub run : Text → List Text → State → Result Output × State
  run name args st =
      if name == bytes "enroll"
      then cmd_enroll args st
      else if name == bytes "sync"
      then cmd_sync args st
      else if name == bytes "list" || name == bytes "ls"
      then cmd_list args st
      else if name == bytes "inspect"
      then cmd_inspect args st
      else if name == bytes "connect" || name == bytes "up"
      then cmd_connect args st
      else if name == bytes "rm" || name == bytes "remove"
      then cmd_remove args st
      else if name == bytes "version" || (name == bytes "-v" || name == bytes "--version")
      then (ok version_text, st)
      else if name == bytes "-h" || (name == bytes "--help" || name == bytes "help")
      then (ok usage_text, st)
      else (err (unknown_command name), st)

  -- dispatch
  unfoldable pub dispatch : List Text → State → Result Output × State
  unfolding run
  dispatch [] st = (err subcommand_required, st)
  dispatch (name ∷ args) st = run name args st
