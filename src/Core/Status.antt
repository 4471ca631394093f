-- ===== src/Core/Status.antt =====
-- ControllerStatus, Reachable and Session.Stats of go/core.go, before their results are marshalled.
pub mod Laws
pub mod Tests
use caravel.Prelude.{
  ℤ, Bool, false, Option, none, some, [], if◌then◌else◌, Result, ok, err, panic, ◌>>=◌,
}
use caravel.Prelude.Text.{Text}
use caravel.Json.{Codec}
use caravel.Crypto.{Primitives}
use caravel.DeviceId
use caravel.DeviceId.{Bundle}
use caravel.Disk
use caravel.Disk.{Disk, Read, found, missing, failed}
use caravel.Enroll.Pin.{Pki}
use caravel.Profile.Store.{Store}
use caravel.Profile.Types.{ProfileJson, Profile, ControlEndpoint}
use caravel.Sync
use caravel.Sync.{Network}
use caravel.Core.Connect.{Session}
use caravel.Core.Listing.{read_bundle}
use caravel.Core.Sidecars.{synced_path, pid_path}
use caravel.Vp.Stats
use caravel.Vp.Stats.{Counters, unavailable}
use caravel.Vp.XrayTunnel
use caravel.Vp.XrayTunnel.{XrayTunnel}

-- ctlStatus
pub record Status : Type 0 where
  pub reachable : Bool
  pub last_synced_at : Text
  pub relay : Text
  pub controller : Option ControlEndpoint

abbrev pub no_status : Status
no_status = record { reachable = false; last_synced_at = []; relay = []; controller = none }

-- What json.Unmarshal leaves in the struct of a marker's `relay` and `synced_at`, its error ignored.
abbrev pub MarkerView : Type 0
MarkerView = Text → Text × Text

-- `if mb, err := os.ReadFile(...); err == nil`
unfoldable pub marker_of : MarkerView → Read → Text × Text
marker_of view (found mb) = view mb
marker_of view missing = ([], [])
marker_of view failed = ([], [])

-- `if p, perr := profile.Parse(...); perr == nil`
unfoldable pub controller_of : Result Profile → Result (Option ControlEndpoint)
controller_of (ok p) = ok p.control
controller_of (err e) = ok none
controller_of panic = panic

module _ (B : Codec Bundle) (K : Pki) (net : Network) where
  -- Reachable, whose deadline is the network's.
  unfoldable pub probe : Text → Result Bool
  probe pharosid = elim (DeviceId.parse B pharosid) [
    | ok b ↦ ok (Sync.reachable K net b)
    | err e ↦ ok false
    | panic ↦ panic
  ]

  -- The last step of ControllerStatus, on the raw `.pharosid`.
  unfoldable pub probe_file : Read → Result Bool
  unfolding probe
  probe_file (found pid) = probe pid
  probe_file missing = ok false
  probe_file failed = ok false

  module _ (P : Primitives) (J : ProfileJson) (view : MarkerView) where
    -- ControllerStatus
    unfoldable pub controller_status : Option Store → Disk → Text → Result Status
    unfolding controller_of marker_of probe_file
    controller_status none d name = ok no_status
    controller_status (some s) d name = do
      control ← controller_of (read_bundle P J d name)
      reachable ← probe_file (Disk.read d (pid_path name))
      ok (record {
        reachable = reachable;
        last_synced_at = (marker_of view (Disk.read d (synced_path name))).1;
        relay = (marker_of view (Disk.read d (synced_path name))).0;
        controller = control;
      })

-- The result of Session.Stats.
pub record SessionStats : Type 0 where
  pub rx : ℤ
  pub tx : ℤ
  pub proto : Text
  pub endpoint : Text

-- The counters of the engine that a session holds: what the AmneziaWG device answers, or the XRay tunnel.
unfoldable pub session_counters : Session → Option (Option Text) → XrayTunnel → Counters
session_counters s device t =
    if s.awg then Stats.stats device else if s.xray then XrayTunnel.stats t else unavailable

-- Session.Stats
unfoldable pub session_stats : Session → Option (Option Text) → XrayTunnel → SessionStats
unfolding session_counters
session_stats s device t = record {
  rx = (session_counters s device t).rx;
  tx = (session_counters s device t).tx;
  proto = s.proto;
  endpoint = s.endpoint;
}
