-- ===== src/Profile/Tests.antt =====
-- The package at concrete inputs: references, endpoints and tunnels.
use mathlib.Core.List.{Memᴰ}
use caravel.Prelude.{◌≡◌, ◌≢◌, refl, inl, inr, pos, [], ◌∷◌, ok}
use caravel.Prelude.Members.{cases_cons}
use caravel.Prelude.Decimal.{itoa}
use caravel.Prelude.Text.{bytes, ◌==◌, before_byte}
use caravel.Prelude.TextLaws.{ne_of_test}
use caravel.Profile.Endpoint.{Words, pick_endpoint, rand_port, bare_ip}
use caravel.Profile.HostPort.{join_host_port}
use caravel.Profile.Select.{node, entry_node_id}
use caravel.Profile.Select.Laws.{node-entry_missing}
use caravel.Profile.Tunnel.{tunnel, amnezia_wg}
use caravel.Profile.Tunnel.Laws.{Resolved, tunnel-Resolved}
use caravel.Profile.Types.{Node, Tunnel}
use caravel.Samples.Profiles.{obfuscation, exit_node, broken_cascade, json}

not_entry : (m : Node) → Memᴰ m broken_cascade.nodes → m.id ≢ entry_node_id broken_cascade
unfolding entry_node_id ◌==◌
not_entry m h = elim (cases_cons h) [
  | inl same ↦ rw same (ne_of_test (bytes "exit") (bytes "entry") refl)
  | inr rest ↦ elim rest [ ]
]

node-entry_missing_example :
    (node broken_cascade [] ≡ ok exit_node) × (exit_node.id ≢ entry_node_id broken_cascade)
node-entry_missing_example = node-entry_missing broken_cascade exit_node [] refl not_entry

abbrev words : Words
words = record { entry = 5; port = 6 }

abbrev resolved : Tunnel
resolved = record {
  node_id = bytes "exit";
  node_name = bytes "Exit";
  private_key = bytes "priv";
  server_public_key = bytes "pub";
  preshared_key = [];
  endpoint = bytes "192.0.2.1:1002";
  address = bytes "10.0.0.2";
  allowed_ips = bytes "0.0.0.0/0" ∷ bytes "::/0" ∷ [];
  keepalive = pos 25;
  mtu = pos 1420;
  obfuscation = obfuscation;
}

tunnel-Resolved_example : Resolved json words exit_node resolved
unfolding tunnel amnezia_wg pick_endpoint rand_port bare_ip join_host_port itoa before_byte ◌==◌
tunnel-Resolved_example = tunnel-Resolved json words exit_node resolved refl
