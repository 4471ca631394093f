-- ===== src/Profile/Tunnel/Laws.antt =====
-- What a resolved tunnel holds, described without the code of its parts.
use mathlib.Core.Option.{some-injective}
use mathlib.Core.Path.{subst}
use caravel.Prelude.{
  ℕ, pos, ◌≡◌, ◌≢◌, refl, sym, ap, ◌∙◌, ◌⊎◌, inl, inr, false, Bool-cases, Option-cases, some, List,
  [], ◌∷◌, ◌++◌, arith, eqb, find_first, ok, as_err-eq-ok, >>=-eq-ok, ok-injective,
  decode_amneziawg,
}
use caravel.Prelude.Decimal.{itoa}
use caravel.Prelude.Text.{Text, bytes, ◌==◌, eq_iff, has_byte, before_byte}
use caravel.Prelude.TextLaws.{ne_of_test}
use caravel.Profile.Endpoint.{Words, pick_endpoint, bare_ip}
use caravel.Profile.Endpoint.Laws.{Offered, pick_endpoint-Offered}
use caravel.Profile.HostPort.{join_host_port}
use caravel.Profile.Types.{
  Node, Protocol, EndpointPool, AmneziaWg, Tunnel, ProfileJson, protocol_amnezia_wg, all_routes,
}
use caravel.Profile.Tunnel.{entry_of, routes_or_all, amnezia_wg, dial_endpoint, tunnel}

-- The bare address has no mask left.
pub has_byte-bare_ip : (addr : Text) → has_byte b'/' (bare_ip addr) ≡ false
unfolding bare_ip before_byte
has_byte-bare_ip [] = refl
has_byte-bare_ip (c ∷ s) = ground (arith, has_byte-bare_ip s)

-- An address without a mask is left alone, and of one with a mask the part before it is kept.
pub bare_ip-mask :
    (ip mask : Text)
    → has_byte b'/' ip ≡ false
    → (bare_ip ip ≡ ip) × (bare_ip (ip ++ (b'/' ∷ mask)) ≡ ip)
unfolding bare_ip before_byte
bare_ip-mask [] mask h = (refl, ground arith)
bare_ip-mask (c ∷ s) mask h =
    let (a, b) = bare_ip-mask s mask (ground arith) in (ground (arith, a), ground (arith, b))

-- An address as it stands in a profile, with a mask or without one, and the part that is kept.
abbrev pub IsBare : Text → Text → Type 0
IsBare addr ip =
    (has_byte b'/' ip ≡ false) × ((addr ≡ ip) ⊎ ((mask : Text) × (addr ≡ ip ++ (b'/' ∷ mask))))

bare_ip-split :
    (addr : Text) → (addr ≡ bare_ip addr) ⊎ ((mask : Text) × (addr ≡ bare_ip addr ++ (b'/' ∷ mask)))
unfolding bare_ip before_byte
bare_ip-split [] = inl refl
bare_ip-split (c ∷ s) = elim (Bool-cases (eqb b'/' c)) [
  | inl e ↦ let slash : c ≡ b'/' = ground arith in rw e (inr (s, ap (λ (d : ℕ). d ∷ s) slash))
  | inr e ↦ rw e (elim (bare_ip-split s) [
    | inl same ↦ inl (ap (λ (t : Text). c ∷ t) same)
    | inr (mask, same) ↦ inr (mask, ap (λ (t : Text). c ∷ t) same)
  ])
]

-- The first protocol entry of a type.
pub data IsFirst (type : Text) (pr : Protocol) : List Protocol → Type 0 where
  here : (rest : List Protocol) → pr.type ≡ type → IsFirst type pr (pr ∷ rest)
  later :
      (other : Protocol) (rest : List Protocol)
      → other.type ≢ type
      → IsFirst type pr rest
      → IsFirst type pr (other ∷ rest)

find_first-IsFirst :
    (type : Text) (prs : List Protocol) (pr : Protocol)
    → find_first (λ p. p.type == type) prs ≡ some pr
    → IsFirst type pr prs
find_first-IsFirst type [] pr h = cc
find_first-IsFirst type (p ∷ prs) pr h = elim (Bool-cases (p.type == type)) [
  | inl e ↦
      let same : p ≡ pr = some-injective p pr (rw e at h) in
      subst (λ (q : Protocol). IsFirst type q (p ∷ prs)) same (here prs ((eq_iff p.type type).0 e))
  | inr e ↦ later p prs (ne_of_test p.type type e) (find_first-IsFirst type prs pr (rw e at h))
]

routes_or_all-none : (routes : List Text) → routes ≡ [] → routes_or_all routes ≡ all_routes
routes_or_all-none [] h = refl
routes_or_all-none (r ∷ rs) h = cc

routes_or_all-given : (routes : List Text) → routes ≢ [] → routes_or_all routes ≡ routes
routes_or_all-given [] h = absurd (h refl)
routes_or_all-given (r ∷ rs) h = refl

module _ (J : ProfileJson) (w : Words) (n : Node) where
  -- What the parts of a resolved AmneziaWG tunnel are.
  pub record Resolved (t : Tunnel) : Type 0 where
    pub entry : Protocol
    pub is_first : IsFirst (bytes "amneziawg") entry n.protocols
    pub params : AmneziaWg
    pub decoded : J.amnezia_wg.unmarshal entry.params ≡ ok params
    pub host : Text
    pub port : ℕ
    pub offered : Offered params.endpoints n.endpoints host port
    pub dialled : t.endpoint ≡ join_host_port host (itoa port)
    pub keys : (t.private_key ≡ params.private_key) × (t.server_public_key ≡ params.public_key)
    pub shared : t.preshared_key ≡ params.preshared_key
    pub disguised : t.obfuscation ≡ params.obfuscation
    pub of_node : (t.node_id ≡ n.id) × (t.node_name ≡ n.name)
    pub routed : (params.allowed_ips ≢ []) → t.allowed_ips ≡ params.allowed_ips
    pub routes_all : params.allowed_ips ≡ [] → t.allowed_ips ≡ bytes "0.0.0.0/0" ∷ bytes "::/0" ∷ []
    pub bare : IsBare params.address t.address
    pub constants : (t.mtu ≡ pos 1420) × (t.keepalive ≡ pos 25)

  amnezia_wg-eq-ok :
      (a : AmneziaWg)
      → amnezia_wg J n ≡ ok a
      → (entry : Protocol) × IsFirst (bytes "amneziawg") entry n.protocols
        × (J.amnezia_wg.unmarshal entry.params ≡ ok a)
  unfolding amnezia_wg
  amnezia_wg-eq-ok a h = elim (Option-cases (entry_of protocol_amnezia_wg n)) [
    | inl e ↦ let q = rw (e, amnezia_wg) at h in cc
    | inr (pr, e) ↦ (
      pr,
      find_first-IsFirst protocol_amnezia_wg n.protocols pr e,
      as_err-eq-ok _ decode_amneziawg (rw (e, amnezia_wg) at h),
    )
  ]

  picked :
      (pool : List EndpointPool) (endpoint : Text)
      → pick_endpoint w pool n.endpoints ≡ ok endpoint
      → (host : Text) × (port : ℕ) × Offered pool n.endpoints host port
        × (endpoint ≡ join_host_port host (itoa port))
  picked pool endpoint h = elim (pick_endpoint-Offered w pool n.endpoints) [
    | inl (host, port, e, offered) ↦ (host, port, offered, ok-injective endpoint _ (sym h ∙ e))
    | inr (_, _, e) ↦ cc
  ]

  -- A tunnel that Tunnel returns names the node and holds the keys and the obfuscation of the node's
  -- first AmneziaWG entry, decoded; it dials a host and a port that are offered, an entry of that
  -- entry's pool that has an address with a port of its range or, where the pool has none, an address
  -- of the node with port 443; it has the entry's address without the mask, the entry's routes or,
  -- where it has none, all IPv4 and IPv6, the MTU 1420 and a keepalive of 25 seconds.
  pub tunnel-Resolved : (t : Tunnel) → tunnel J w n ≡ ok t → Resolved t
  unfolding tunnel dial_endpoint
  tunnel-Resolved t h =
      let (a, e1, h1) = >>=-eq-ok (amnezia_wg J n) _ h in
      let (endpoint, e2, h2) = >>=-eq-ok (dial_endpoint w a n.endpoints) _ h1 in
      let same = ok-injective _ t h2 in
      let (entry, first, decoded) = amnezia_wg-eq-ok a e1 in
      let (host, port, offered, dialled) = picked a.endpoints endpoint e2 in
      subst Resolved same (record {
        entry = entry;
        is_first = first;
        params = a;
        decoded = decoded;
        host = host;
        port = port;
        offered = offered;
        dialled = dialled;
        keys = (refl, refl);
        shared = refl;
        disguised = refl;
        of_node = (refl, refl);
        routed = routes_or_all-given a.allowed_ips;
        routes_all = routes_or_all-none a.allowed_ips;
        bare = (has_byte-bare_ip a.address, bare_ip-split a.address);
        constants = (refl, refl);
      })
