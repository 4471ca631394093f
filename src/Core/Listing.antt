-- ===== src/Core/Listing.antt =====
-- ListProfiles of go/core.go, before its result is marshalled.
pub mod Tests
use caravel.Prelude.{
  ◌≡◌, ◌≢◌, refl, sym, ap, ◌∙◌, Bool, Option, none, some, List, [], ◌∷◌, ◌++◌, map, Result, ok, err,
  panic, ◌>>=◌, >>=-eq-ok, ok-injective, Result-cases, inl, inr, Error,
}
use mathlib.Core.Path.{subst}
use caravel.Prelude.Text.{Text, bytes}
use caravel.Crypto.{Primitives}
use caravel.Disk
use caravel.Disk.{Disk, Read, found, missing, failed}
use caravel.Profile.Parse.{parse}
use caravel.Profile.Store
use caravel.Profile.Store.{Store, Entry, Globbed, globbed, raw_of, path}
use caravel.Profile.Store.Listing.{IsListing, list-IsListing}
use caravel.Profile.Types.{ProfileJson, Profile, ClientProfile, Node, PathView, ControlEndpoint}
use caravel.Core.Resolve.{no_options}
use caravel.Core.Sidecars.{is_cloud}

-- jsonNode
pub record JsonNode : Type 0 where
  pub name : Text
  pub region : Text
  pub ips : List Text

-- jsonProfile
pub record JsonProfile : Type 0 where
  pub bundle : Text
  pub name : Text
  pub protocol : Text
  pub nodes : List JsonNode
  pub path : Option PathView
  pub control : Option ControlEndpoint
  pub cloud_synced : Bool

unfoldable pub json_node : Node → JsonNode
json_node n = record { name = n.name; region = n.region; ips = n.endpoints }

unfoldable pub json_profile : Text → Bool → Profile → ClientProfile → JsonProfile
unfolding json_node
json_profile bundle cloud p cp = record {
  bundle = bundle;
  name = cp.name;
  protocol = cp.protocol;
  nodes = map json_node cp.nodes;
  path = cp.path;
  control = p.control;
  cloud_synced = cloud;
}

module _ (P : Primitives) (J : ProfileJson) where
  -- The bundle of a name, as the listing reads it.
  unfoldable pub read_bundle : Disk → Text → Result Profile
  read_bundle d name = raw_of name d >>= λ raw. parse P J raw no_options

  -- `if err != nil { continue }`, and otherwise one entry for each profile of the bundle.
  unfoldable pub flatten : Text → Bool → Result Profile → Result (List JsonProfile)
  unfolding json_profile
  flatten bundle cloud (ok p) = ok (map (json_profile bundle cloud p) p.profiles)
  flatten bundle cloud (err _) = ok []
  flatten bundle cloud panic = panic

  -- The loop over the store's entries
  unfoldable pub list_entries : Disk → List Entry → Result (List JsonProfile)
  unfolding read_bundle flatten
  list_entries d [] = ok []
  list_entries d (e ∷ es) = flatten e.name (is_cloud e.name d) (read_bundle d e.name) >>= λ here.
      list_entries d es >>= λ rest. ok (here ++ rest)

  -- ListProfiles, which ignores an error of List.
  unfoldable pub list_profiles : Option Store → Globbed → Disk → Result (List JsonProfile)
  unfolding list_entries
  list_profiles none g d = ok []
  list_profiles (some _) g d = elim (Store.list J g d) [
    | ok es ↦ list_entries d es
    | err _ ↦ ok []
    | panic ↦ panic
  ]

-- The nodes of a row are those of the profile, in their order.
pub data AreNodes : List Node → List JsonNode → Type 0 where
  no_nodes : AreNodes [] []
  and_node :
      (n : Node) (m : JsonNode) (ns : List Node) (ms : List JsonNode)
      → m.name ≡ n.name
      → m.region ≡ n.region
      → m.ips ≡ n.endpoints
      → AreNodes ns ms
      → AreNodes (n ∷ ns) (m ∷ ms)

json_node-AreNodes : (ns : List Node) → AreNodes ns (map json_node ns)
unfolding json_node
json_node-AreNodes [] = no_nodes
json_node-AreNodes (n ∷ ns) = and_node n (json_node n) ns _ refl refl refl (json_node-AreNodes ns)

-- What a row says of a profile in a bundle.
pub record IsRow (d : Disk) (e : Entry) (p : Profile) (cp : ClientProfile) (x : JsonProfile)
    : Type 0 where
  pub of_bundle : x.bundle ≡ e.name
  pub named : x.name ≡ cp.name
  pub of_protocol : x.protocol ≡ cp.protocol
  pub has_nodes : AreNodes cp.nodes x.nodes
  pub has_path : x.path ≡ cp.path
  pub has_control : x.control ≡ p.control
  pub synced : x.cloud_synced ≡ Disk.exists d (e.name ++ bytes ".synced")

pub data RowsOf (d : Disk) (e : Entry) (p : Profile)
    : List ClientProfile → List JsonProfile → Type 0 where
  no_profiles : RowsOf d e p [] []
  and_profile :
      (cp : ClientProfile) (x : JsonProfile) (cps : List ClientProfile) (xs : List JsonProfile)
      → IsRow d e p cp x
      → RowsOf d e p cps xs
      → RowsOf d e p (cp ∷ cps) (x ∷ xs)

json_profile-RowsOf :
    (d : Disk) (e : Entry) (p : Profile) (cps : List ClientProfile)
    → RowsOf d e p cps (map (json_profile e.name (is_cloud e.name d) p) cps)
unfolding json_profile is_cloud
json_profile-RowsOf d e p [] = no_profiles
json_profile-RowsOf d e p (cp ∷ cps) =
    and_profile cp (json_profile e.name (is_cloud e.name d) p cp) cps _
      (record {
        of_bundle = refl;
        named = refl;
        of_protocol = refl;
        has_nodes = json_node-AreNodes cp.nodes;
        has_path = refl;
        has_control = refl;
        synced = refl;
      })
      (json_profile-RowsOf d e p cps)

module _ (P : Primitives) (J : ProfileJson) (d : Disk) where
  -- The file of an entry is read and parses to a document without any password or key.
  abbrev pub Opens : Entry → Profile → Type 0
  Opens e p =
      (raw : Text) × (Disk.read d (path e.name) ≡ found raw)
      × (parse P J raw (record { password = []; device_key = []; signer_public = [] }) ≡ ok p)

  -- The rows of the entries, in their order: those of the profiles of each bundle that opens.
  pub data Rows : List Entry → List JsonProfile → Type 0 where
    no_entries : Rows [] []
    opened :
        (e : Entry) (p : Profile) (es : List Entry) (xs rest : List JsonProfile)
        → Opens e p
        → RowsOf d e p p.profiles xs
        → Rows es rest
        → Rows (e ∷ es) (xs ++ rest)
    skipped :
        (e : Entry) (es : List Entry) (rest : List JsonProfile)
        → ((p : Profile) → Opens e p → ⊥)
        → Rows es rest
        → Rows (e ∷ es) rest

  raw_of-eq-ok : (name raw : Text) → raw_of name d ≡ ok raw → Disk.read d (path name) ≡ found raw
  unfolding raw_of
  raw_of-eq-ok name raw h = go (Disk.read d (path name)) refl
    where
      go : (r : Read) → Disk.read d (path name) ≡ r → Disk.read d (path name) ≡ found raw
      go (found t) e = e ∙ ap found (ok-injective t raw (rw (e, raw_of) at h))
      go missing e = let q = rw (e, raw_of) at h in cc
      go failed e = let q = rw (e, raw_of) at h in cc

  read_bundle-Opens : (e : Entry) (p : Profile) → read_bundle P J d e.name ≡ ok p → Opens e p
  unfolding read_bundle
  read_bundle-Opens e p h =
      let (raw, read, parsed) = >>=-eq-ok (raw_of e.name d) _ h in
      (raw, raw_of-eq-ok e.name raw read, parsed)

  Opens-read_bundle : (e : Entry) (p : Profile) → Opens e p → read_bundle P J d e.name ≡ ok p
  unfolding read_bundle raw_of
  Opens-read_bundle e p (raw, read, parsed) = rw (read, raw_of, read_bundle) parsed

  list_entries-Rows :
      (es : List Entry) (out : List JsonProfile) → list_entries P J d es ≡ ok out → Rows es out
  unfolding list_entries flatten
  list_entries-Rows [] out h = subst (Rows []) (ok-injective [] out h) no_entries
  list_entries-Rows (e ∷ es) out h = elim (Result-cases (read_bundle P J d e.name)) [
    | inl (p, read) ↦
        let (rest, listed, h1) =
          >>=-eq-ok (list_entries P J d es) _ (rw (read, list_entries) at h) in
        subst (Rows (e ∷ es)) (ok-injective _ out h1) (
          opened e p es _ rest (read_bundle-Opens e p read) (json_profile-RowsOf d e p p.profiles)
            (list_entries-Rows es rest listed))
    | inr (inl (x, read)) ↦
        let (rest, listed, h1) =
          >>=-eq-ok (list_entries P J d es) _ (rw (read, list_entries) at h) in
        subst (Rows (e ∷ es)) (ok-injective rest out h1) (
          skipped e es rest (λ p o. cc (read, Opens-read_bundle e p o))
            (list_entries-Rows es rest listed))
    | inr (inr read) ↦ let q = rw (read, list_entries) at h in cc
  ]

  -- What ListProfiles returns from an opened store whose directory can be listed is one row after the
  -- other for each profile of each bundle that is read and opened without a password, in the order of
  -- the store's listing and of the profiles in the bundle, and none for the other bundles. A row has the
  -- bundle's name, the name, protocol, nodes and path of the profile, the control endpoint of the
  -- bundle, and whether the bundle has a `.synced` file.
  pub list_profiles-Rows :
      (s : Store) (out : List JsonProfile)
      → list_profiles P J (some s) globbed d ≡ ok out
      → (es : List Entry) × IsListing J d es × Rows es out
  unfolding list_profiles
  list_profiles-Rows s out h =
      let (_, _, (es, e, listing)) = list-IsListing J d in
      (es, listing, list_entries-Rows es out (rw (e, list_profiles) at h))
