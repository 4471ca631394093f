-- ===== src/Routes/Order.antt =====
-- The order of the commands of go/cmd/caravel/connect_linux.go.
use mathlib.Core.List.{Memᴰ, reverse}
use mathlib.Core.List.Memᴰ.{head, tail}
use caravel.Prelude.{
  ℤ, pos, ◌≡◌, refl, Bool, true, false, Bool-cases, ◌⊎◌, inl, inr, Option, none, some, List, [],
  ◌∷◌, ◌++◌, Result, ok, err, panic, if◌then◌else◌,
}
use caravel.Prelude.Text.{Text, bytes, ◌==◌, has_byte}
use caravel.Profile.Types.{Tunnel}
use caravel.Core.Connect.{config_of}
use caravel.Core.Resolve.{mtu_over}
use caravel.Vp.Device.{Event, up, open_dev}
use caravel.Routes.{
  Command, addr_add, link_up, route_add, route_replace, route_del, Routes, Linux, Rest, route_to,
  is_default_route, unless_failed, sh, pin_address, visit_route, sh_undo, add_routes, override,
  pin_to, capture_default, configure_network, delete_routes, close_routes, finish, after_up,
  on_device, connect_routes, endpoint_host,
}

module _ (L : Linux) (t : Tunnel) where
  -- The command that keeps the endpoint's address on the route that the system had to it.
  abbrev pub IsPin : Command → Type 0
  IsPin c =
      (ip : Text) × (via : Text) × (dev : Text) × (L.resolve_ip4 (endpoint_host L t.endpoint)
        ≡ some ip)
      × (route_to L ip ≡ ok (via, dev))
      × (c ≡ route_replace (ip ++ bytes "/32") via dev)

  abbrev pub IsPinned : List (Command × Bool) → Type 0
  IsPinned ran = (c : Command) × IsPin c × Memᴰ (c, true) ran

  -- A route is replaced only by the pin or after it.
  abbrev pub IsAllowed : Command → List (Command × Bool) → Type 0
  IsAllowed (addr_add _ _) earlier = Unit {0}
  IsAllowed (link_up _ _) earlier = Unit {0}
  IsAllowed (route_add _ _) earlier = Unit {0}
  IsAllowed (route_del _) earlier = Unit {0}
  IsAllowed (route_replace dest via dev) earlier =
      IsPin (route_replace dest via dev) ⊎ IsPinned earlier

  abbrev pub IsGuarded : List (Command × Bool) → Type 0
  IsGuarded [] = Unit {0}
  IsGuarded ((c, _) ∷ earlier) = IsAllowed c earlier × IsGuarded earlier

  abbrev Guards : Rest → Type 0
  Guards k = (r : Routes) → IsGuarded r.ran → IsGuarded (k r).1.ran

  unless_failed-IsGuarded :
      (c : Command) (b : Bool) (k : Rest) (r : Routes)
      → IsAllowed c r.ran × IsGuarded r.ran
      → IsGuarded (k (record r { ran = (c, true) ∷ r.ran })).1.ran
      → IsGuarded (unless_failed b k (record r { ran = (c, b) ∷ r.ran })).1.ran
  unfolding unless_failed
  unless_failed-IsGuarded c true k r g after = after
  unless_failed-IsGuarded c false k r g after = g

  sh-IsGuarded :
      (c : Command) (k : Rest) (r : Routes)
      → IsAllowed c r.ran × IsGuarded r.ran
      → IsGuarded (k (record r { ran = (c, true) ∷ r.ran })).1.ran
      → IsGuarded (sh L c k r).1.ran
  unfolding sh
  sh-IsGuarded c k r g after = unless_failed-IsGuarded c (L.accepts r.ran c) k r g after

  sh-Guards :
      (c : Command) (k : Rest) → ((ran : _) → IsAllowed c ran) → Guards k → Guards (sh L c k)
  sh-Guards c k allowed guards r g =
      sh-IsGuarded c k r (allowed r.ran, g)
        (guards (record r { ran = (c, true) ∷ r.ran }) (allowed r.ran, g))

  visit_route-Guards :
      (iface cidr : Text) (is_default is_ipv6 capture : Bool) (next : Bool → Rest)
      → ((b : Bool) → Guards (next b))
      → Guards (visit_route L iface cidr is_default is_ipv6 capture next)
  unfolding visit_route sh_undo
  visit_route-Guards iface cidr true is_ipv6 capture next guards r g = guards true r g
  visit_route-Guards iface cidr false true capture next guards r g = guards capture r g
  visit_route-Guards iface cidr false false capture next guards r g =
      sh-Guards (route_add cidr iface) (λ r. next capture (record r { undo = r.undo ++ cidr ∷ [] }))
        (λ ran. tt) (λ r g. guards capture (record r { undo = r.undo ++ cidr ∷ [] }) g) r g

  add_routes-Guards :
      (iface : Text) (cidrs : List Text) (capture : Bool) (rest : Bool → Rest)
      → ((b : Bool) → Guards (rest b))
      → Guards (add_routes L iface cidrs capture rest)
  unfolding add_routes
  add_routes-Guards iface [] capture rest guards r g = guards capture r g
  add_routes-Guards iface (cidr ∷ cidrs) capture rest guards r g =
      visit_route-Guards iface cidr (is_default_route cidr) (has_byte b':' cidr) capture
        (λ b. add_routes L iface cidrs b rest) (λ b. add_routes-Guards iface cidrs b rest guards) r
        g

  override-IsGuarded :
      (iface : Text) (halves : List Text) (r : Routes)
      → IsPinned r.ran
      → IsGuarded r.ran
      → IsGuarded (override L iface halves r).1.ran
  unfolding override sh_undo
  override-IsGuarded iface [] r pinned g = g
  override-IsGuarded iface (half ∷ halves) r (c, pin, at) g =
      let set = route_replace half [] iface in
      sh-IsGuarded set (λ r. override L iface halves (record r { undo = r.undo ++ half ∷ [] })) r
        (inr (c, pin, at), g)
        (override-IsGuarded iface halves
          (record r { ran = (set, true) ∷ r.ran; undo = r.undo ++ half ∷ [] }) (c, pin, tail at)
          (inr (c, pin, at), g))

  pin_to-Guards :
      (iface ip : Text) (route : Result (Text × Text))
      → L.resolve_ip4 (endpoint_host L t.endpoint) ≡ some ip
      → route_to L ip ≡ route
      → Guards (pin_to L iface ip route)
  unfolding pin_to sh_undo
  pin_to-Guards iface ip (err e) found routed r g = g
  pin_to-Guards iface ip panic found routed r g = g
  pin_to-Guards iface ip (ok (via, dev)) found routed r g =
      let dest = ip ++ bytes "/32" in
      let pin = route_replace dest via dev in
      let halves = bytes "0.0.0.0/1" ∷ bytes "128.0.0.0/1" ∷ [] in
      let is_pin : IsPin pin = (ip, via, dev, found, routed, refl) in
      sh-IsGuarded pin (λ r. override L iface halves (record r { undo = r.undo ++ dest ∷ [] })) r
        (inl is_pin, g)
        (override-IsGuarded iface halves
          (record r { ran = (pin, true) ∷ r.ran; undo = r.undo ++ dest ∷ [] })
          (pin, is_pin, head refl) (inl is_pin, g))

  pin_address-Guards :
      (iface : Text) (ip? : Option Text)
      → L.resolve_ip4 (endpoint_host L t.endpoint) ≡ ip?
      → Guards (pin_address L iface ip?)
  unfolding pin_address
  pin_address-Guards iface none found r g = g
  pin_address-Guards iface (some ip) found r g =
      pin_to-Guards iface ip (route_to L ip) found refl r g

  capture_default-Guards :
      (iface : Text) (capture : Bool) → Guards (capture_default L t iface capture)
  unfolding capture_default
  capture_default-Guards iface false r g = g
  capture_default-Guards iface true r g =
      pin_address-Guards iface (L.resolve_ip4 (endpoint_host L t.endpoint)) refl r g

  configure_network-Guards :
      (iface : Text) (mtu : ℤ) (full : Bool) → Guards (configure_network L t iface mtu full)
  unfolding configure_network
  configure_network-Guards iface mtu full r g = elim (Bool-cases (t.address == [])) [
    | inl e ↦ rw e g
    | inr e ↦
        let routes =
          add_routes L iface (if full then [] else t.allowed_ips) full
            (λ capture. capture_default L t iface capture) in
        rw e (
          sh-Guards (addr_add (t.address ++ bytes "/32") iface) (sh L (link_up iface mtu) routes)
            (λ ran. tt)
            (sh-Guards (link_up iface mtu) routes (λ ran. tt)
              (add_routes-Guards iface (if full then [] else t.allowed_ips) full
                (λ capture. capture_default L t iface capture) (capture_default-Guards iface)))
            r g)
  ]

  delete_routes-IsGuarded :
      (ds : List Text) (ran : List (Command × Bool))
      → IsGuarded ran
      → IsGuarded (delete_routes L ds ran)
  unfolding delete_routes
  delete_routes-IsGuarded [] ran g = g
  delete_routes-IsGuarded (d ∷ ds) ran g =
      delete_routes-IsGuarded ds ((route_del d, L.accepts ran (route_del d)) ∷ ran) (tt, g)

  finish-IsGuarded :
      (iface : Text) (events : List Event) (k : Result (Unit {0}) × Routes)
      → IsGuarded k.1.ran
      → IsGuarded (finish L iface events k).1.ran
  unfolding finish close_routes
  finish-IsGuarded iface events (ok _, r) g = g
  finish-IsGuarded iface events (err e, r) g = delete_routes-IsGuarded (reverse r.undo) r.ran g
  finish-IsGuarded iface events (panic, r) g = g

  after_up-IsGuarded :
      (iface : Text) (mtu : ℤ) (full : Bool) (u : Result (Unit {0}) × List Event)
      → IsGuarded (after_up L t iface mtu full u).1.ran
  unfolding after_up
  after_up-IsGuarded iface mtu full (err e, events) = tt
  after_up-IsGuarded iface mtu full (panic, events) = tt
  after_up-IsGuarded iface mtu full (ok _, events) =
      finish-IsGuarded iface events
        (configure_network L t iface mtu full (record { ran = []; undo = [] }))
        (configure_network-Guards iface mtu full (record { ran = []; undo = [] }) tt)

  on_device-IsGuarded :
      (mtu : ℤ) (full makes_tun : Bool) (name : Option Text)
      → IsGuarded (on_device L t mtu full makes_tun name).1.ran
  unfolding on_device
  on_device-IsGuarded mtu full false name = tt
  on_device-IsGuarded mtu full true none = tt
  on_device-IsGuarded mtu full true (some iface) =
      after_up-IsGuarded iface mtu full (up L.decode_base64 L.awg (config_of t) (open_dev mtu ∷ []))

-- Among the commands of a connect, one that replaces a route is the one that sends the endpoint's
-- resolved address by the gateway and the device that `ip route get` named for it, or it was run
-- after that one had succeeded.
pub connect_routes-IsGuarded :
    (L : Linux) (t : Tunnel) (full : Bool) → IsGuarded L t (connect_routes L t full).1.ran
unfolding connect_routes
connect_routes-IsGuarded L t full =
    on_device-IsGuarded L t (mtu_over t.mtu (pos 1420)) full
      (L.makes_tun (mtu_over t.mtu (pos 1420))) L.dev_name
