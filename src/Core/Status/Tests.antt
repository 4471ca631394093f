-- ===== src/Core/Status/Tests.antt =====
-- ControllerStatus at concrete inputs.
use caravel.Prelude.{Bool, true, ℤ, ◌≡◌, refl, ap, some, [], ◌∷◌, ok, err, panic, Result}
use caravel.Prelude.Text.{Text, bytes, ◌==◌, has_suffix, trim_suffix, trim_space}
use caravel.Json.{Codec, RoundTrips}
use caravel.DeviceId
use caravel.DeviceId.{with_defaults, validate}
use caravel.Disk
use caravel.Disk.{Disk}
use caravel.Profile.Parse.{wrap_plaintext, header}
use caravel.Profile.Store.{path, base, import}
use caravel.Sync.Checks.{TakesConnection}
use caravel.Core.{Marker, sync_bundle, store_synced}
use caravel.Core.Names.{sanitize_name, first_non_empty}
use caravel.Core.Sidecars.{purge_cloud, purge_entries, remove_all, sidecars}
use caravel.Core.Status.{MarkerView, controller_status}
use caravel.Core.Status.Laws.{MarkerLaws, controller_status-sync_bundle}
use caravel.Samples.Ciphers.{ciphers}
use caravel.Samples.Codecs.{bundle_codec, profile_json-EnvelopeLaws}
use caravel.Samples.Devices.{bundle, bundle_text, pki}
use caravel.Samples.Hosts.{host, store, fetched}
use caravel.Samples.Profiles.{document, awg, xray, json, blank}
use caravel.Samples.Services.{network}
use caravel.Samples.Wire.{Wire, text, int, ◌<*>◌, codec, codec-RoundTrips}

abbrev marker_wire : Wire (Text × (ℤ × (Text × (Text × Text))))
marker_wire = text <*> int <*> text <*> text <*> text

abbrev markers : Codec Marker
markers =
    codec marker_wire (λ m. (m.user, (m.revision, (m.relay, (m.controller, m.synced_at)))))
      (λ t. record {
        user = t.0;
        revision = t.1.0;
        relay = t.1.1.0;
        controller = t.1.1.1.0;
        synced_at = t.1.1.1.1;
      })

markers-RoundTrips : RoundTrips markers
markers-RoundTrips = codec-RoundTrips marker_wire _ _ (λ m. refl)

abbrev two_fields : Result Marker → Text × Text
two_fields (ok m) = (m.relay, m.synced_at)
two_fields (err e) = ([], [])
two_fields panic = ([], [])

abbrev view : MarkerView
view t = two_fields (markers.unmarshal t)

markers-MarkerLaws : MarkerLaws markers view
markers-MarkerLaws = record {
  text_of = λ m. marker_wire.put (m.user, (m.revision, (m.relay, (m.controller, m.synced_at)))) [];
  marshals = λ m. refl;
  view-marshal = λ m t h. ap two_fields (markers-RoundTrips.unmarshal-marshal m t h);
}

-- A disk that has an imported profile.
abbrev mine : Disk
mine = record blank { files = (bytes "mine.pharos", bytes "z") ∷ [] }

controller_status-sync_bundle_example :
    (reachable : Bool) × (controller_status bundle_codec pki network ciphers json view
        (some store)
        (sync_bundle json markers host bundle bundle_text [] (ok fetched) mine).1
        (bytes "laptop")
      ≡ ok (record {
        reachable = reachable;
        last_synced_at = host.now;
        relay = bundle.relay_addr;
        controller = document.control;
      }))
    × (reachable ≡ true → TakesConnection pki network bundle)
    × (TakesConnection pki network bundle → reachable ≡ true)
unfolding DeviceId.parse with_defaults validate sync_bundle store_synced import header
    wrap_plaintext purge_cloud purge_entries remove_all Disk.write Disk.remove sanitize_name
    first_non_empty trim_space path base trim_suffix has_suffix sidecars Disk.names ◌==◌
controller_status-sync_bundle_example =
    controller_status-sync_bundle ciphers json (profile_json-EnvelopeLaws document awg xray) markers
      view markers-MarkerLaws bundle_codec pki network host refl store bundle bundle_text []
      (bytes "laptop") fetched document mine (λ k. refl) (λ k. refl) refl refl refl
