-- ===== src/Core/Enrolling.antt =====
-- Enroll of go/core.go from the link to the stored profile.
pub mod Tests
use mathlib.Core.Path.{subst}
use caravel.Prelude.{
  ◌≡◌, refl, sym, ap, ◌∙◌, Bool, false, none, some, [], Option, Result, ok, err, panic, ◌>>=◌,
  >>=-eq-ok, Result-cases, inl, inr, ok-injective, if◌then◌else◌,
}
use caravel.Prelude.Text.{Text, bytes, ◌==◌}
use caravel.Json.{Codec, RoundTrips}
use caravel.Crypto.{Primitives, KeyPair}
use caravel.DeviceId
use caravel.DeviceId.{Bundle, Pem, IsLawful, encryption_private_key}
use caravel.Disk.{Disk}
use caravel.Enroll.Claim.{Device, Relay, claim}
use caravel.Enroll.Claim.Laws.{Enrolled, claim-Enrolled}
use caravel.Enroll.Link.{Link, UrlParser, parse_link}
use caravel.Enroll.Pin.{Pki}
use caravel.Profile.Store.{Store, path}
use caravel.Profile.Types.{ProfileJson, EnvelopeLaws}
use caravel.Sync.{Fetched, Network, Randomness, fetch}
use caravel.Sync.Calls.{Service}
use caravel.Sync.Fetch.{Opened, fetch-Opened}
use caravel.Sync.Checks.{KeyOf}
use caravel.Core.{Marker, Host, enrolled_bundle, fetch_and_store, enroll}
use caravel.Core.Reading.{IsFetched, fetch_and_store-IsFetched}

module _ (P : Primitives) (E : Pem) (J : ProfileJson) (B : Codec Bundle) (M : Codec Marker)
    (K : Pki) (net : Network) (host : Host) (laws : EnvelopeLaws J) (round_trips : RoundTrips B)
    (lawful : IsLawful E) (relay : Relay) (S : Service) (rand : Randomness) where
  -- The bundle that was claimed with a link.
  enrolled_bundle-Enrolled :
      (U : UrlParser) (device : Device) (link device_name platform : Text) (b : Bundle)
      (pharosid : Text)
      → enrolled_bundle P E J B M K net host U device relay link device_name platform
        ≡ ok (b, pharosid)
      → (l : Link) × (parse_link U link ≡ ok l)
        × Enrolled P E B K round_trips device relay l
            (if device_name == [] then bytes "caravel-device" else device_name)
            b
        × (DeviceId.marshal B b ≡ ok pharosid)
  unfolding enrolled_bundle
  enrolled_bundle-Enrolled U device link device_name platform b pharosid h =
      let (l, parsed, h1) = >>=-eq-ok (parse_link U link) _ h in
      let (c, claimed, h2) =
        >>=-eq-ok
          (claim P E B K device relay l
            (if device_name == [] then bytes "caravel-device" else device_name)
            (if platform == [] then bytes "caravel" else platform))
          _ h1 in
      let (raw, marshalled, h3) = >>=-eq-ok (DeviceId.marshal B c) _ h2 in
      let same = ok-injective (c, raw) (b, pharosid) h3 in
      let bundle : c ≡ b = ap (λ (x : Bundle × Text). x.0) same in
      (
        l,
        parsed,
        subst (Enrolled P E B K round_trips device relay l _) bundle
            (claim-Enrolled P E B K round_trips lawful device relay l _ _ c claimed),
        subst (λ (x : Bundle × Text). DeviceId.marshal B x.0 ≡ ok x.1) same marshalled,
      )

  -- A fetch with a bundle that holds a key opened its profile with that key.
  opened_with_own_key :
      (b : Bundle) (key password : Text) (res : Fetched)
      → encryption_private_key E b ≡ ok (some key)
      → (fetch P E J.crypto K net S rand b [] password []).0 ≡ ok res
      → res.device_key ≡ key
  opened_with_own_key b key password res holds fetched =
      let (own, read, _, opened) =
        fetch-Opened P E J.crypto K net S rand b [] password res fetched in
      subst
        (λ (o : Option Text).
          KeyOf P J.crypto o password opened.remote.wrapped_private_key res.device_key)
        (ok-injective own (some key) (sym read ∙ holds)) opened.keyed

  -- What an Enroll that returned a name has done.
  pub record IsEnrolled (U : UrlParser) (device : Device) (link device_name name : Text)
      (after : Disk) : Type 0 where
    pub parsed : Link
    pub is_link : parse_link U link ≡ ok parsed
    pub bundle : Bundle
    pub enrolled :
        Enrolled P E B K round_trips device relay parsed
          (if device_name == [] then bytes "caravel-device" else device_name)
          bundle
    pub fetched : IsFetched P E J B M K net host laws S rand bundle [] [] after name
    pub own_key : fetched.0.device_key ≡ enrolled.keys.private

  -- An Enroll that returned a name has parsed its link and claimed a bundle with it, complete and with
  -- the relay's chain checked against the link's fingerprint or the answered fleet CA; it has fetched a
  -- profile with that bundle, without an email or a password, and opened it with the private key that
  -- the device drew and whose X25519 public key the claim had sent; and reading the name gives what the
  -- fetched plaintext decodes to.
  pub enroll-IsEnrolled :
      (s : Option Store) (U : UrlParser) (device : Device) (link device_name platform : Text)
      (d : Disk) (name : Text)
      → d.is_unreadable (path name) ≡ false
      → (enroll P E J B M K net host s U device relay S rand link device_name platform d).0
        ≡ ok name
      → IsEnrolled U device link device_name name
          (enroll P E J B M K net host s U device relay S rand link device_name platform d).1
  unfolding enroll
  enroll-IsEnrolled none U device link device_name platform d name readable h = cc
  enroll-IsEnrolled (some s) U device link device_name platform d name readable h =
      elim (Result-cases
        (enrolled_bundle P E J B M K net host U device relay link device_name platform)) [
          | inl ((b, pharosid), e) ↦
              let (l, is_link, enrolled, _) =
                enrolled_bundle-Enrolled U device link device_name platform b pharosid e in
              let fetched =
                fetch_and_store-IsFetched P E J B M K net host laws S rand b pharosid [] [] d name
                  readable (rw (e, enroll) at h) in
              rw (e, enroll)
                (record {
                  parsed = l;
                  is_link = is_link;
                  bundle = b;
                  enrolled = enrolled;
                  fetched = fetched;
                  own_key =
                      opened_with_own_key b enrolled.keys.private [] fetched.0 enrolled.holds_key
                        fetched.1;
                })
          | inr (inl (x, e)) ↦ let q = rw (e, enroll) at h in cc
          | inr (inr e) ↦ let q = rw (e, enroll) at h in cc
        ]
