-- ===== src/Routes/Undo.antt =====
-- configureNetwork of go/cmd/caravel/connect_linux.go: its undo list and the commands that it ran.
use mathlib.Core.List.{append-nil}
use caravel.Prelude.{
  ℤ, ◌≡◌, refl, sym, ap, ◌∙◌, Bool, true, false, Bool-cases, inl, inr, Option, none, some, List, [],
  ◌∷◌, ◌++◌, Result, ok, err, panic, if◌then◌else◌,
}
use caravel.Prelude.Text.{Text, bytes, ◌==◌, has_byte}
use caravel.Profile.Types.{Tunnel}
use caravel.Routes.{
  Command, addr_add, link_up, route_add, route_replace, route_del, Routes, Linux, Rest, route_to,
  is_default_route, unless_failed, sh, pin_address, visit_route, sh_undo, add_routes, override,
  pin_to, capture_default, configure_network, endpoint_host,
}

-- The route that a command sets.
abbrev pub dests : Command → List Text
dests (addr_add _ _) = []
dests (link_up _ _) = []
dests (route_add dest _) = dest ∷ []
dests (route_replace dest _ _) = dest ∷ []
dests (route_del _) = []

abbrev pub set_by : Command → Bool → List Text
set_by c true = dests c
set_by c false = []

-- The routes that the commands which succeeded have set, in the order of the commands.
abbrev pub added : List (Command × Bool) → List Text
added [] = []
added ((c, succeeded) ∷ earlier) = added earlier ++ set_by c succeeded

-- The undo list names the routes that were set.
abbrev pub Owned : Routes → Type 0
Owned r = r.undo ≡ added r.ran

abbrev pub Keeps : Rest → Type 0
Keeps k = (r : Routes) → Owned r → Owned (k r).1

module _ (L : Linux) where
  unless_failed-Owned :
      (c : Command) (b : Bool) (k : Rest) (r : Routes)
      → Owned r
      → Owned (k (record r { ran = (c, true) ∷ r.ran })).1
      → Owned (unless_failed b k (record r { ran = (c, b) ∷ r.ran })).1
  unfolding unless_failed
  unless_failed-Owned c true k r own after = after
  unless_failed-Owned c false k r own after = own ∙ sym (append-nil (added r.ran))

  sh-Keeps :
      (c : Command) (k : Rest)
      → ((r : Routes) → Owned r → Owned (k (record r { ran = (c, true) ∷ r.ran })).1)
      → Keeps (sh L c k)
  unfolding sh
  sh-Keeps c k keeps r own = unless_failed-Owned c (L.accepts r.ran c) k r own (keeps r own)

  sh-plain : (c : Command) (k : Rest) → dests c ≡ [] → Keeps k → Keeps (sh L c k)
  sh-plain c k no_route keeps = sh-Keeps c k (λ r own.
      keeps (record r { ran = (c, true) ∷ r.ran })
        (own ∙ (sym (append-nil (added r.ran)) ∙ ap (λ t. added r.ran ++ t) (sym no_route))))

  sh_undo-Keeps :
      (c : Command) (dest : Text) (k : Rest)
      → dests c ≡ dest ∷ []
      → Keeps k
      → Keeps (sh_undo L c dest k)
  unfolding sh_undo
  sh_undo-Keeps c dest k route keeps =
      sh-Keeps c (λ r. k (record r { undo = r.undo ++ dest ∷ [] }))
        (λ r own.
          keeps (record r { ran = (c, true) ∷ r.ran; undo = r.undo ++ dest ∷ [] })
            (ap (λ t. t ++ dest ∷ []) own ∙ ap (λ t. added r.ran ++ t) (sym route)))

  visit_route-Keeps :
      (iface cidr : Text) (is_default is_ipv6 capture : Bool) (next : Bool → Rest)
      → ((b : Bool) → Keeps (next b))
      → Keeps (visit_route L iface cidr is_default is_ipv6 capture next)
  unfolding visit_route
  visit_route-Keeps iface cidr true is_ipv6 capture next keeps r own = keeps true r own
  visit_route-Keeps iface cidr false true capture next keeps r own = keeps capture r own
  visit_route-Keeps iface cidr false false capture next keeps r own =
      sh_undo-Keeps (route_add cidr iface) cidr (next capture) refl (keeps capture) r own

  add_routes-Keeps :
      (iface : Text) (cidrs : List Text) (capture : Bool) (rest : Bool → Rest)
      → ((b : Bool) → Keeps (rest b))
      → Keeps (add_routes L iface cidrs capture rest)
  unfolding add_routes
  add_routes-Keeps iface [] capture rest keeps r own = keeps capture r own
  add_routes-Keeps iface (cidr ∷ cidrs) capture rest keeps r own =
      visit_route-Keeps iface cidr (is_default_route cidr) (has_byte b':' cidr) capture
        (λ b. add_routes L iface cidrs b rest) (λ b. add_routes-Keeps iface cidrs b rest keeps) r
        own

  override-Keeps : (iface : Text) (halves : List Text) → Keeps (override L iface halves)
  unfolding override
  override-Keeps iface [] r own = own
  override-Keeps iface (half ∷ halves) r own =
      sh_undo-Keeps (route_replace half [] iface) half (override L iface halves) refl
        (override-Keeps iface halves) r own

  pin_to-Keeps : (iface ip : Text) (route : Result (Text × Text)) → Keeps (pin_to L iface ip route)
  unfolding pin_to
  pin_to-Keeps iface ip (err e) r own = own
  pin_to-Keeps iface ip panic r own = own
  pin_to-Keeps iface ip (ok (via, dev)) r own =
      sh_undo-Keeps (route_replace (ip ++ bytes "/32") via dev) (ip ++ bytes "/32")
        (override L iface (bytes "0.0.0.0/1" ∷ bytes "128.0.0.0/1" ∷ [])) refl
        (override-Keeps iface (bytes "0.0.0.0/1" ∷ bytes "128.0.0.0/1" ∷ [])) r own

  pin_address-Keeps : (iface : Text) (ip? : Option Text) → Keeps (pin_address L iface ip?)
  unfolding pin_address
  pin_address-Keeps iface none r own = own
  pin_address-Keeps iface (some ip) r own = pin_to-Keeps iface ip (route_to L ip) r own

  capture_default-Keeps :
      (t : Tunnel) (iface : Text) (capture : Bool) → Keeps (capture_default L t iface capture)
  unfolding capture_default
  capture_default-Keeps t iface false r own = own
  capture_default-Keeps t iface true r own =
      pin_address-Keeps iface (L.resolve_ip4 (endpoint_host L t.endpoint)) r own

  pub configure_network-Keeps :
      (t : Tunnel) (iface : Text) (mtu : ℤ) (full : Bool)
      → Keeps (configure_network L t iface mtu full)
  unfolding configure_network
  configure_network-Keeps t iface mtu full r own = elim (Bool-cases (t.address == [])) [
    | inl e ↦ rw e own
    | inr e ↦
        let routes =
          add_routes L iface (if full then [] else t.allowed_ips) full
            (λ capture. capture_default L t iface capture) in
        rw e (
          sh-plain (addr_add (t.address ++ bytes "/32") iface) (sh L (link_up iface mtu) routes)
            refl
            (sh-plain (link_up iface mtu) routes refl (
              add_routes-Keeps iface (if full then [] else t.allowed_ips) full
                (λ capture. capture_default L t iface capture) (capture_default-Keeps t iface)))
            r own)
  ]
