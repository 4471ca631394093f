-- ===== src/DeviceId/Laws.antt =====
-- Round trips of the bundle and of the key in it, and what Parse accepts.
use caravel.Prelude.{
  pos, ◌≡◌, ◌≢◌, ◌⊎◌, true, not, some, [], length, eqb_iff, is_int, arith, ok, >>=-eq-ok,
  reject_if-eq-ok, ok-injective, as_err-eq-ok, as_err, device_json, not_device_bundle,
  unsupported_device_version,
}
use caravel.Prelude.Text.{Text, ◌==◌, eq_iff, eq_refl}
use caravel.Json.{Codec, RoundTrips}
use caravel.DeviceId.{
  Bundle, Block, Pem, IsLawful, encryption_key_pem_type, format_tag, format_version,
  encryption_private_key, encode_encryption_key, with_defaults, validate, marshal, parse,
}

-- The fields without which a device cannot reach its relay.
pub record IsComplete (b : Bundle) : Type 0 where
  pub has_relay : b.relay_addr ≢ []
  pub has_fleet_ca : b.fleet_ca_pem ≢ []
  pub has_cert : b.device_cert_pem ≢ []
  pub has_key : b.device_key_pem ≢ []

-- `validate` accepts only complete bundles.
pub validate-IsComplete : (b : Bundle) → validate b ≡ ok tt → IsComplete b
unfolding validate
validate-IsComplete b h =
    let (r, h1) = reject_if-eq-ok (b.relay_addr == []) _ _ h in
    let (f, h2) = reject_if-eq-ok (b.fleet_ca_pem == []) _ _ h1 in
    let (c, h3) = reject_if-eq-ok (b.device_cert_pem == []) _ _ h2 in
    record {
      has_relay = λ e. ground (arith, eq_iff b.relay_addr []);
      has_fleet_ca = λ e. ground (arith, eq_iff b.fleet_ca_pem []);
      has_cert = λ e. ground (arith, eq_iff b.device_cert_pem []);
      has_key = λ e. ground (arith, eq_iff b.device_key_pem []);
    }

IsComplete-validate : (b : Bundle) → IsComplete b → validate b ≡ ok tt
unfolding validate
IsComplete-validate b c = ground (
  arith,
  eq_iff b.relay_addr [],
  eq_iff b.fleet_ca_pem [],
  eq_iff b.device_cert_pem [],
  eq_iff b.device_key_pem [],
  c.has_relay,
  c.has_fleet_ca,
  c.has_cert,
  c.has_key,
)

with_defaults-full :
    (b : Bundle)
    → (b.fmt ≡ []) ⊎ (b.fmt ≡ format_tag)
    → (b.v ≡ pos 0) ⊎ (b.v ≡ pos 1)
    → with_defaults b ≡ record b { fmt = format_tag; v = pos 1 }
unfolding with_defaults
with_defaults-full b f v = ground (arith, eq_iff b.fmt [], eq_refl [])

module _ (J : Codec Bundle) where
  -- What Parse returns is the decoded bundle, with the device tag, version 1 and every field that is
  -- needed to reach the relay.
  pub parse-IsComplete :
      (raw : Text) (b : Bundle)
      → parse J raw ≡ ok b
      → (J.unmarshal raw ≡ ok b) × (b.fmt ≡ format_tag) × (is_int b.v 1 ≡ true) × IsComplete b
  unfolding parse
  parse-IsComplete raw b h =
      let (d, e, h1) = >>=-eq-ok (as_err (J.unmarshal raw) device_json) _ h in
      let (t, h2) = reject_if-eq-ok (not (d.fmt == format_tag)) not_device_bundle _ h1 in
      let (v, h3) =
        reject_if-eq-ok (not (is_int d.v format_version)) (unsupported_device_version d.v) _ h2 in
      let (_, c, h4) = >>=-eq-ok (validate d) _ h3 in
      let same : d ≡ b = ok-injective d b h4 in
      (
        rw (← same) (as_err-eq-ok (J.unmarshal raw) device_json e),
        rw (← same) (ground (arith, eq_iff d.fmt format_tag)),
        rw (← same) (ground arith),
        rw (← same) (validate-IsComplete d c),
      )

  -- A complete bundle whose tag and version are the current ones or unset comes back from its
  -- marshalled form, with the tag and the version filled in.
  pub parse-marshal :
      RoundTrips J
      → (b : Bundle) (raw : Text) → IsComplete b
      → (b.fmt ≡ []) ⊎ (b.fmt ≡ format_tag)
      → (b.v ≡ pos 0) ⊎ (b.v ≡ pos 1)
      → marshal J b ≡ ok raw
      → parse J raw ≡ ok (record b { fmt = format_tag; v = pos 1 })
  unfolding parse marshal
  parse-marshal laws b raw c f v h =
      let full : Bundle = record b { fmt = format_tag; v = pos 1 } in
      let filled : with_defaults b ≡ full = with_defaults-full b f v in
      let d : J.unmarshal raw ≡ ok full = laws.unmarshal-marshal full raw (rw (← filled) h) in
      let ready : validate full ≡ ok tt = IsComplete-validate full (record {
        has_relay = c.has_relay;
        has_fleet_ca = c.has_fleet_ca;
        has_cert = c.has_cert;
        has_key = c.has_key;
      }) in
      rw d (rw (eq_refl format_tag) (rw ready))

module _ (E : Pem) (lawful : IsLawful E) where
  -- A key of 32 bytes is encoded, and is read back from every bundle that carries the encoding.
  pub encryption_key_round_trip :
      (priv : Text) (b : Bundle)
      → length priv ≡ 32
      → (pem : Text) × (encode_encryption_key E priv ≡ ok pem)
        × (encryption_private_key E (record b { encryption_key_pem = pem }) ≡ ok (some priv))
  unfolding encode_encryption_key encryption_private_key
  encryption_key_round_trip priv b size =
      let k : Block = record { type = encryption_key_pem_type; contents = priv } in
      (
        E.encode k,
        rw size,
        rw (lawful.encode-given k)
            (rw (lawful.decode-encode k) (rw (eq_refl encryption_key_pem_type) (rw size))),
      )

  -- A key that was encoded is read back.
  pub encryption_private_key-encode :
      (priv pem : Text) (b : Bundle)
      → encode_encryption_key E priv ≡ ok pem
      → b.encryption_key_pem ≡ pem
      → encryption_private_key E b ≡ ok (some priv)
  unfolding encode_encryption_key encryption_private_key
  encryption_private_key-encode priv pem b h e =
      let k : Block = record { type = encryption_key_pem_type; contents = priv } in
      ground (
        arith,
        lawful.encode-given k,
        lawful.decode-encode k,
        eq_refl encryption_key_pem_type,
        eqb_iff (length priv) 32,
      )

  -- The private key that a bundle gives has 32 bytes.
  pub encryption_private_key-length :
      (b : Bundle) (key : Text) → encryption_private_key E b ≡ ok (some key) → length key ≡ 32
  unfolding encryption_private_key
  encryption_private_key-length b key h = ground arith
