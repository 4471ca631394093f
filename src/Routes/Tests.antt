-- ===== src/Routes/Tests.antt =====
-- The routes of go/cmd/caravel/connect_linux.go at concrete inputs.
use caravel.Prelude.{
  ◌≡◌, refl, Bool, true, false, not, some, List, [], ◌∷◌, pos, err, command_failed,
}
use caravel.Prelude.Text.{bytes, ◌==◌}
use caravel.Profile.HostPort.{split_host_port, split_last, split_first}
use caravel.Profile.Types.{Tunnel, Obfuscation}
use caravel.Samples.Sealed.{device_key}
use caravel.Vp.Device.{up}
use caravel.Vp.Engine.{uapi, key_hex}
use caravel.Routes.{
  Command, addr_add, link_up, route_add, route_replace, route_del, Linux, route_to, connect_routes,
}
use caravel.Routes.Laws.{IsSettled, commands, connect_routes-IsSettled}
use caravel.Routes.Order.{IsGuarded, connect_routes-IsGuarded}

-- A system that refuses to set the second half of the address space.
abbrev takes : Command → Bool
unfolding ◌==◌
takes (addr_add _ _) = true
takes (link_up _ _) = true
takes (route_add _ _) = true
takes (route_replace dest _ _) = not (dest == bytes "128.0.0.0/1")
takes (route_del _) = true

abbrev linux : Linux
linux = record {
  accepts = λ ran c. takes c;
  resolve_ip4 = λ host. some host;
  route_get = λ ip. some (bytes "192.0.2.9 via 10.1.1.1 dev eth0 src 10.1.1.7");
  makes_tun = λ mtu. true;
  dev_name = some (bytes "pharos0");
  decode_base64 = λ s. some device_key;
  awg = record { ipc_set = λ t. true; comes_up = λ t. true };
}

abbrev plain : Obfuscation
plain = record {
  jc = 0;
  jmin = 0;
  jmax = 0;
  s1 = 0;
  s2 = 0;
  s3 = 0;
  s4 = 0;
  h1 = 0;
  h2 = 0;
  h3 = 0;
  h4 = 0;
  i1 = [];
  i2 = [];
  i3 = [];
  i4 = [];
  i5 = [];
}

abbrev office : Tunnel
office = record {
  node_id = bytes "n1";
  node_name = bytes "node";
  private_key = bytes "private";
  server_public_key = bytes "public";
  preshared_key = [];
  endpoint = bytes "192.0.2.9:443";
  address = bytes "10.0.0.2";
  allowed_ips = bytes "10.9.0.0/16" ∷ bytes "::/0" ∷ [];
  keepalive = pos 25;
  mtu = pos 1400;
  obfuscation = plain;
}

route_to_gateway :
    route_to linux (bytes "192.0.2.9") ≡ caravel.Prelude.ok (bytes "10.1.1.1", bytes "eth0")
unfolding route_to ◌==◌
route_to_gateway = refl

-- The halves need both commands: the refused one has the routes before it deleted.
connect_routes_refused :
    commands (connect_routes linux office false).1.ran
    ≡ route_del (bytes "10.9.0.0/16")
      ∷ route_del (bytes "192.0.2.9/32")
      ∷ route_del (bytes "0.0.0.0/1")
      ∷ route_replace (bytes "128.0.0.0/1") [] (bytes "pharos0")
      ∷ route_replace (bytes "0.0.0.0/1") [] (bytes "pharos0")
      ∷ route_replace (bytes "192.0.2.9/32") (bytes "10.1.1.1") (bytes "eth0")
      ∷ route_add (bytes "10.9.0.0/16") (bytes "pharos0")
      ∷ link_up (bytes "pharos0") (pos 1400)
      ∷ addr_add (bytes "10.0.0.2/32") (bytes "pharos0")
      ∷ []
unfolding connect_routes route_to uapi key_hex up split_host_port split_last split_first ◌==◌
connect_routes_refused = refl

connect_routes-IsSettled_example :
    IsSettled linux (err command_failed) (connect_routes linux office false).1
unfolding connect_routes route_to uapi key_hex up split_host_port split_last split_first ◌==◌
connect_routes-IsSettled_example = connect_routes-IsSettled linux office false

connect_routes-IsGuarded_example : IsGuarded linux office (connect_routes linux office false).1.ran
connect_routes-IsGuarded_example = connect_routes-IsGuarded linux office false
