-- ===== src/Cli/Process.antt =====
-- go/cmd/caravel/main.go: what surrounds a command, what it leaves and what it prints.
use mathlib.Core.List.{reverse}
use caravel.Prelude.{Bool, ◌||◌, Option, List, [], ◌∷◌, eqb, if◌then◌else◌, Result, ok, err, panic}
use caravel.Prelude.Text.{Text, bytes, ◌==◌}
use caravel.Json.{Codec}
use caravel.Crypto.{Primitives}
use caravel.DeviceId.{Bundle, Pem}
use caravel.Disk.{Disk}
use caravel.Enroll.Claim.{Device, Relay}
use caravel.Enroll.Link.{UrlParser}
use caravel.Enroll.Pin.{Pki}
use caravel.Profile.Endpoint.{Words}
use caravel.Profile.Store.{Entry, Globbed}
use caravel.Profile.Types.{ProfileJson, Profile}
use caravel.Sync.{Network, Randomness}
use caravel.Sync.Calls.{Service}
use caravel.Core.{Marker, Host}
use caravel.Core.Listing.{JsonProfile}
use caravel.Vp.Device.{Event}
use caravel.Routes.{Linux, Routes}

-- What surrounds the process: the libraries and services that the engine calls, the environment
-- variable CARAVEL_HOME, standard input, the user, and the network side of a Linux host.
pub record World : Type 0 where
  pub primitives : Primitives
  pub pem : Pem
  pub profile_json : ProfileJson
  pub bundle_json : Codec Bundle
  pub marker_json : Codec Marker
  pub pki : Pki
  pub network : Network
  pub host : Host
  pub urls : UrlParser
  pub device : Device
  pub relay : Relay
  pub service : Service
  pub randomness : Randomness
  pub words : Words
  pub mkdir_all : Text → Bool
  pub glob : Globbed
  pub caravel_home : Text
  pub stdin : Option Text
  pub is_root : Bool
  pub linux : Option Linux

-- What a command leaves behind: the disk, the routing commands it ran, and what happened to its TUN.
pub record State : Type 0 where
  pub disk : Disk
  pub routes : Routes
  pub events : List Event

-- What a command prints.
pub data Output : Type 0 where
  stored : Text → Output
  entries : List Entry → Output
  rows : List JsonProfile → Output
  shown : Profile → Output
  removed : Text → Output
  disconnected : Text → Output
  version_text : Output
  usage_text : Output

-- storeDir
unfoldable pub store_dir : Text → Text
store_dir home = if home == [] then bytes "/etc/pharos/profiles" else home

-- strings.TrimRight(s, "\r\n")
drop_newlines : Text → Text
drop_newlines [] = []
drop_newlines (c ∷ s) = let rest = drop_newlines s in if eqb c 10 || eqb c 13 then rest else c ∷ s

unfoldable pub trim_newlines : Text → Text
unfolding drop_newlines
trim_newlines s = reverse (drop_newlines (reverse s))

-- `if err != nil { return err }` before anything was changed.
unfoldable pub or_stop {ℓ} :
    {A : Type ℓ} → Result A → State → (A → Result Output × State) → Result Output × State
or_stop (ok a) st rest = rest a
or_stop (err e) st rest = (err e, st)
or_stop panic st rest = (panic, st)
