-- ===== src/Routes.antt =====
-- connect, configureNetwork, Close and routeTo of go/cmd/caravel/connect_linux.go. The commands that
-- `sh` has run go along with the list of routes to undo.
pub mod Undo
pub mod Laws
pub mod Order
pub mod Tests
use mathlib.Core.List.{reverse}
use caravel.Prelude.{
  ℤ, pos, Bool, true, false, ◌||◌, Option, none, some, List, [], ◌∷◌, ◌++◌, if◌then◌else◌, Result,
  ok, err, panic, no_tunnel_address, command_failed, resolve_endpoint, no_egress_device, create_tun,
  iface_name,
}
use caravel.Prelude.Text.{Text, bytes, ◌==◌, has_byte, is_space}
use caravel.Profile.HostPort.{split_host_port}
use caravel.Profile.Types.{Tunnel}
use caravel.Core.Connect.{config_of}
use caravel.Core.Resolve.{mtu_over}
use caravel.Vp.Device.{Event, open_dev, close_dev, Awg, up}

-- The ip commands: `addr add A/32 dev D`, `link set dev D mtu M up`, `route add C dev D`,
-- `route replace R via V dev D`, without `via V` where V is empty, and `route del R`.
pub data Command : Type 0 where
  addr_add : Text → Text → Command
  link_up : Text → ℤ → Command
  route_add : Text → Text → Command
  route_replace : Text → Text → Text → Command
  route_del : Text → Command

-- The commands run so far, the newest first, each with whether it succeeded, and the field `undo`
-- of the tunnel.
pub record Routes : Type 0 where
  pub ran : List (Command × Bool)
  pub undo : List Text

-- The system: whether a command succeeds after those run so far, name resolution, the output of
-- `ip route get`, the TUN device and its name, base64 and the engine.
pub record Linux : Type 0 where
  pub accepts : List (Command × Bool) → Command → Bool
  pub resolve_ip4 : Text → Option Text
  pub route_get : Text → Option Text
  pub makes_tun : ℤ → Bool
  pub dev_name : Option Text
  pub decode_base64 : Text → Option Text
  pub awg : Awg

-- strings.Fields of ASCII text: the word that the text begins with, then the words after it.
unfoldable pub words_of : Text → Text × List Text
unfolding is_space
words_of [] = ([], [])
words_of (c ∷ s) =
    let (w, ws) = words_of s in
    if is_space c then ([], if w == [] then ws else w ∷ ws) else (c ∷ w, ws)

unfoldable pub fields : Text → List Text
unfolding words_of
fields s = let (w, ws) = words_of s in if w == [] then ws else w ∷ ws

-- The loop of routeTo: the words after the last "via" and the last "dev".
unfoldable pub via_dev : List Text → Text × Text → Text × Text
via_dev [] r = r
via_dev (f ∷ []) r = r
via_dev (f ∷ g ∷ fs) r =
    via_dev (g ∷ fs)
      (if f == bytes "via" then (g, r.1) else if f == bytes "dev" then (r.0, g) else r)

-- routeTo
unfoldable pub route_to : Linux → Text → Result (Text × Text)
unfolding fields via_dev
route_to L ip = elim (L.route_get ip) [
  | none ↦ err command_failed
  | some out ↦
      let r = via_dev (fields out) ([], []) in if r.1 == [] then err no_egress_device else ok r
]

-- isDefaultRoute
unfoldable pub is_default_route : Text → Bool
is_default_route cidr = cidr == bytes "0.0.0.0/0" || cidr == bytes "::/0"

-- What is left of configureNetwork at one of its statements.
abbrev pub Rest : Type 0
Rest = Routes → Result (Unit {0}) × Routes

-- `if err != nil { return err }` after a command.
unfoldable pub unless_failed : Bool → Rest → Rest
unless_failed true rest r = rest r
unless_failed false rest r = (err command_failed, r)

module _ (L : Linux) where
  -- `if err := sh(...); err != nil { return err }`
  unfoldable pub sh : Command → Rest → Rest
  unfolding unless_failed
  sh c rest r =
      let succeeded = L.accepts r.ran c in
      unless_failed succeeded rest (record r { ran = (c, succeeded) ∷ r.ran })

  -- The same, followed by `tn.undo = append(tn.undo, dest)`.
  unfoldable pub sh_undo : Command → Text → Rest → Rest
  unfolding sh
  sh_undo c dest rest = sh c (λ r. rest (record r { undo = r.undo ++ dest ∷ [] }))

  -- The body of the loop over the allowed routes: the tests are on a default route and on a colon.
  unfoldable pub visit_route : Text → Text → Bool → Bool → Bool → (Bool → Rest) → Rest
  unfolding sh_undo
  visit_route iface cidr true is_ipv6 capture next = next true
  visit_route iface cidr false true capture next = next capture
  visit_route iface cidr false false capture next =
      sh_undo (route_add cidr iface) cidr (next capture)

  -- The loop; the rest is told whether a default route was among the allowed ones.
  unfoldable pub add_routes : Text → List Text → Bool → (Bool → Rest) → Rest
  unfolding visit_route is_default_route
  add_routes iface [] capture rest = rest capture
  add_routes iface (cidr ∷ cidrs) capture rest =
      visit_route iface cidr (is_default_route cidr) (has_byte b':' cidr) capture
        (λ b. add_routes iface cidrs b rest)

  -- The loop over the halves of the address space.
  unfoldable pub override : Text → List Text → Rest
  unfolding sh_undo
  override iface [] r = (ok tt, r)
  override iface (half ∷ halves) r =
      sh_undo (route_replace half [] iface) half (override iface halves) r

  -- The route to the endpoint, and then the default route.
  unfoldable pub pin_to : Text → Text → Result (Text × Text) → Rest
  unfolding sh_undo override
  pin_to iface ip (err e) r = (err e, r)
  pin_to iface ip panic r = (panic, r)
  pin_to iface ip (ok (via, dev)) r =
      let dest = ip ++ bytes "/32" in
      sh_undo (route_replace dest via dev) dest
        (override iface (bytes "0.0.0.0/1" ∷ bytes "128.0.0.0/1" ∷ [])) r

  -- The host of the endpoint.
  abbrev pub endpoint_host : Text → Text
  unfolding split_host_port
  endpoint_host endpoint = elim (split_host_port endpoint) [ none ↦ endpoint | some hp ↦ hp.0 ]

  -- The address of the endpoint, and the route to it.
  unfoldable pub pin_address : Text → Option Text → Rest
  unfolding pin_to route_to
  pin_address iface none r = (err resolve_endpoint, r)
  pin_address iface (some ip) r = pin_to iface ip (route_to L ip) r

  -- configureNetwork from the test of captureDefault on
  unfoldable pub capture_default : Tunnel → Text → Bool → Rest
  unfolding pin_address endpoint_host
  capture_default t iface false r = (ok tt, r)
  capture_default t iface true r = pin_address iface (L.resolve_ip4 (endpoint_host t.endpoint)) r

  -- configureNetwork
  unfoldable pub configure_network : Tunnel → Text → ℤ → Bool → Rest
  unfolding sh add_routes capture_default
  configure_network t iface mtu full r =
      if t.address == []
      then (err no_tunnel_address, r)
      else sh (addr_add (t.address ++ bytes "/32") iface)
          (sh (link_up iface mtu) (
            add_routes iface (if full then [] else t.allowed_ips) full
              (λ capture. capture_default t iface capture)))
          r

  -- The loop of Close: `ip route del` of each route, its failure ignored.
  unfoldable pub delete_routes : List Text → List (Command × Bool) → List (Command × Bool)
  delete_routes [] ran = ran
  delete_routes (dest ∷ dests) ran =
      delete_routes dests ((route_del dest, L.accepts ran (route_del dest)) ∷ ran)

  -- Close, as far as the routes are concerned
  unfoldable pub close_routes : Routes → Routes
  unfolding delete_routes
  close_routes r = record { ran = delete_routes (reverse r.undo) r.ran; undo = [] }

  -- `tn.Close()` where configureNetwork failed. The device's Close closes the TUN.
  unfoldable pub finish :
      Text → List Event → Result (Unit {0}) × Routes → Result Text × Routes × List Event
  unfolding close_routes
  finish iface events (ok _, r) = (ok iface, r, events)
  finish iface events (err e, r) = (err e, close_routes r, close_dev ∷ events)
  finish iface events (panic, r) = (panic, r, events)

  -- connect from vp.Up on
  unfoldable pub after_up :
      Tunnel → Text → ℤ → Bool → Result (Unit {0}) × List Event → Result Text × Routes × List Event
  unfolding finish configure_network
  after_up t iface mtu full (err e, events) =
      (err e, record { ran = []; undo = [] }, close_dev ∷ events)
  after_up t iface mtu full (panic, events) = (panic, record { ran = []; undo = [] }, events)
  after_up t iface mtu full (ok _, events) =
      finish iface events (configure_network t iface mtu full (record { ran = []; undo = [] }))

  -- connect on whether CreateTUN succeeds, and on the name of its device
  unfoldable pub on_device :
      Tunnel → ℤ → Bool → Bool → Option Text → Result Text × Routes × List Event
  unfolding after_up config_of up
  on_device t mtu full false name = (err create_tun, record { ran = []; undo = [] }, [])
  on_device t mtu full true none =
      (err iface_name, record { ran = []; undo = [] }, close_dev ∷ open_dev mtu ∷ [])
  on_device t mtu full true (some iface) =
      after_up t iface mtu full (up L.decode_base64 L.awg (config_of t) (open_dev mtu ∷ []))

  -- connect: the interface's name, its routes, and what happened to the TUN device.
  unfoldable pub connect_routes : Tunnel → Bool → Result Text × Routes × List Event
  unfolding on_device
  connect_routes t full =
      let mtu = mtu_over t.mtu (pos 1420) in on_device t mtu full (L.makes_tun mtu) L.dev_name
