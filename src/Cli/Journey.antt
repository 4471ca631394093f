-- ===== src/Cli/Journey.antt =====
-- `caravel enroll` of go/cmd/caravel/main.go, and what `caravel connect` dials afterwards.
pub mod Tests
use caravel.Prelude.{Bool, true, some, List, [], ◌∷◌, ◌++◌, Result}
use caravel.Prelude.Text.{Text, bytes}
use caravel.Json.{RoundTrips}
use caravel.DeviceId.{IsLawful}
use caravel.Disk.{Disk}
use caravel.Profile.Store.{Store}
use caravel.Profile.Types.{EnvelopeLaws, Profile}
use caravel.Core.{enroll}
use caravel.Core.Enrolling.{IsEnrolled}
use caravel.Cli.Connecting.{last_typed}
use caravel.Cli.Flags.Laws.{Given, words}
use caravel.Cli.{dispatch}
use caravel.Cli.Process.{World, State}

-- What the process of `caravel enroll` leaves.
abbrev pub joined_state : World → List Given → Text → List Text → State → State
joined_state W gs link rest st = (dispatch W (bytes "enroll" ∷ (words gs ++ (link ∷ rest))) st).1

module _ (W : World) (laws : EnvelopeLaws W.profile_json) (round_trips : RoundTrips W.bundle_json)
    (lawful : IsLawful W.pem) where
  abbrev pub Enrolls : Text → Text → Text → Disk → Type 0
  Enrolls link device_name name d =
      IsEnrolled W.primitives W.pem W.profile_json W.bundle_json W.marker_json W.pki W.network
        W.host laws round_trips lawful W.relay W.service W.randomness W.urls W.device link
        device_name name d

  -- Enroll as cmdEnroll calls it for the flags that were typed.
  abbrev enrolled : List Given → Text → State → Store → Result Text × Disk
  enrolled gs link st s =
      enroll W.primitives W.pem W.profile_json W.bundle_json W.marker_json W.pki W.network W.host
        (some s) W.urls W.device W.relay W.service W.randomness link
        (last_typed (bytes "name") [] gs) (last_typed (bytes "platform") (bytes "caravel") gs)
        st.disk
