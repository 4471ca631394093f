-- ===== src/Cli/Tests.antt =====
-- The command line at concrete arguments.
use caravel.Prelude.{◌≡◌, refl, true, not, any_of, none, some, List, [], ◌∷◌, ok, if◌then◌else◌}
use caravel.Prelude.Decimal.{itoa}
use caravel.Prelude.Text.{Text, bytes, ◌==◌, has_suffix, trim_suffix, trim_space, before_byte}
use caravel.Disk
use caravel.Disk.{content}
use caravel.Profile.Endpoint.{pick_endpoint, rand_port, bare_ip}
use caravel.Profile.HostPort.{join_host_port, split_host_port, split_first, split_last}
use caravel.Profile.Parse.{wrap_plaintext, header, parse}
use caravel.Profile.Select.{select, node}
use caravel.Profile.Store.{path, base, import, raw_of, new_store}
use caravel.Profile.Tunnel.{tunnel, amnezia_wg}
use caravel.Profile.Types.{extension}
use caravel.Core.{init_store, sync_bundle, store_synced}
use caravel.Core.Names.{sanitize_name, first_non_empty}
use caravel.Core.Sidecars.{purge_cloud, purge_entries, remove_all, sidecars}
use caravel.Routes.{route_to, connect_routes}
use caravel.Samples.Devices.{bundle, bundle_text}
use caravel.Samples.Hosts.{store, fetched, envelope, stocked}
use caravel.Samples.Profiles.{json}
use caravel.Samples.Worlds.{world}
use caravel.Vp.Device.{up}
use caravel.Vp.Engine.{uapi, key_hex}
use caravel.Cli.Flags
use caravel.Cli.Flags.{word_of, option_of, on_flag, parse_bool, value_of, parse_from}
use caravel.Cli.Flags.Laws.{Given, joined, spaced, switch}
use caravel.Cli.Laws.{HasFlags, dispatch-operand}
use caravel.Cli.Removal.{synced_then_removed, dispatch-sync_bundle}
use caravel.Cli.Teardown.{IsClean, cmd_connect-IsClean}
use caravel.Cli.{
  forgotten, open_store, load, chosen_tunnel, hold_tunnel, cmd_connect_linux, connect_on,
  cmd_connect, dispatch,
}
use caravel.Cli.Process.{State, store_dir, or_stop}

abbrev given : List Given
given =
    spaced (bytes "node") (bytes "n1")
    ∷ switch (bytes "no-default-route")
    ∷ joined (bytes "connection") (bytes "c1")
    ∷ []

abbrev state : State
unfolding stocked
state = record { disk = stocked; routes = record { ran = []; undo = [] }; events = [] }

dispatch-operand_example :
    dispatch world (bytes "connect" ∷ bytes "home" ∷ bytes "--no-default-route" ∷ []) state
    ≡ dispatch world (bytes "connect" ∷ bytes "home" ∷ []) state
unfolding word_of
dispatch-operand_example =
    dispatch-operand world (bytes "home") (bytes "--no-default-route" ∷ []) state refl
      (bytes "connect") HasFlags.connect

cmd_connect-IsClean_example : IsClean (cmd_connect world (bytes "home" ∷ []) state).1
unfolding cmd_connect connect_on cmd_connect_linux or_stop Flags.parse word_of value_of parse_from
    load open_store store_dir init_store new_store chosen_tunnel hold_tunnel raw_of parse select
    node tunnel amnezia_wg pick_endpoint rand_port bare_ip join_host_port itoa before_byte
    wrap_plaintext header path base trim_suffix Disk.read connect_routes route_to uapi key_hex up
    split_host_port split_last split_first ◌==◌ stocked envelope
cmd_connect-IsClean_example =
    cmd_connect-IsClean world (bytes "home" ∷ []) state (([], ([], refl, refl)), refl) (λ e. cc)

store_opens : open_store world ≡ ok store
unfolding open_store store_dir init_store new_store ◌==◌
store_opens = refl

dispatch-sync_bundle_example :
    (env : Text) × (wrap_plaintext json fetched.plaintext ≡ ok env)
    × (content
          (synced_then_removed world refl store store_opens bundle bundle_text [] fetched state
            (bytes "laptop")).disk
          (path (bytes "laptop"))
        ≡ (if any_of (λ k. k == path (bytes "laptop")) (forgotten world (bytes "laptop"))
            then none
            else if path (bytes "laptop") == path (bytes "laptop")
            then some env
            else content (purge_cloud true state.disk).1 (path (bytes "laptop"))))
    × (any_of (λ k. k == path (bytes "laptop")) (forgotten world (bytes "laptop"))
        ≡ not (has_suffix (bytes "laptop") extension))
unfolding open_store store_dir init_store new_store sync_bundle store_synced import header
    wrap_plaintext purge_cloud purge_entries remove_all Disk.write Disk.remove sanitize_name
    first_non_empty trim_space path base trim_suffix has_suffix sidecars Disk.names ◌==◌ stocked
    envelope
dispatch-sync_bundle_example =
    dispatch-sync_bundle world refl store store_opens bundle bundle_text [] (bytes "laptop")
      (path (bytes "laptop")) fetched state (λ k. refl) refl
