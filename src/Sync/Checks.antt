-- ===== src/Sync/Checks.antt =====
-- What Dial, Reachable and decryptionKey of go/sync/client.go have checked, without their code.
use caravel.Prelude.{
  ◌≡◌, ◌≢◌, sym, true, not, Bool-cases, Option-cases, inl, inr, Option, some, none, [], ◌∷◌, ok,
  as_err, as_err-eq-ok, >>=-eq-ok, reject_if-eq-ok, reject_if-taken, ok-injective, wrong_passphrase,
  bad_key_size, decrypt_failed, dial_relay, List,
}
use caravel.Prelude.Text.{Text}
use caravel.Prelude.TextLaws.{cons-ne-nil}
use caravel.Crypto.{Primitives, CryptoJson, WrappedKey, unwrap_private_key, derive_kek, open_x}
use caravel.DeviceId.{Bundle}
use caravel.Enroll.Pin.{Cert, Pki}
use caravel.Sync.{Network, dial, reachable}
use caravel.Sync.Open.{decryption_key}

-- A key that opens a profile: the bundle's own or, where it has none, what the wrapped key of the answer
-- holds under the password, by Argon2id with one pass over 64 MiB in four lanes.
abbrev pub KeyOf : Primitives → CryptoJson → Option Text → Text → Text → Text → Type 0
KeyOf P J (some own) password wrapped key = key ≡ own
KeyOf P J none password wrapped key =
    (k : WrappedKey) × (kek : Text) × (wrapped ≢ [])
    × (J.wrapped.unmarshal wrapped ≡ ok k)
    × (P.argon2id password k.salt 1 65536 4 ≡ ok kek)
    × (P.aead_open kek k.nonce k.ct [] ≡ ok key)

module _ (P : Primitives) (J : CryptoJson) where
  unwrap_private_key-KeyOf :
      (password wrapped key : Text)
      → wrapped ≢ []
      → unwrap_private_key P J password wrapped ≡ ok key
      → KeyOf P J none password wrapped key
  unfolding unwrap_private_key derive_kek open_x
  unwrap_private_key-KeyOf password wrapped key given h =
      let (k, e1, h1) = >>=-eq-ok (as_err (J.wrapped.unmarshal wrapped) wrong_passphrase) _ h in
      let (kek, e2, h2) = >>=-eq-ok (P.argon2id password k.salt 1 65536 4) _ h1 in
      let opened = as_err-eq-ok _ wrong_passphrase h2 in
      let (_, e3) = reject_if-eq-ok (not (P.aead_key kek)) bad_key_size _ opened in
      (k, kek, given, as_err-eq-ok _ wrong_passphrase e1, e2, as_err-eq-ok _ decrypt_failed e3)

  pub decryption_key-KeyOf :
      (own : Option Text) (password wrapped key : Text)
      → decryption_key P J own password wrapped ≡ ok key
      → KeyOf P J own password wrapped key
  unfolding decryption_key
  decryption_key-KeyOf (some own) password wrapped key h = sym (ok-injective own key h)
  decryption_key-KeyOf none password [] key h = cc
  decryption_key-KeyOf none password (c ∷ wrapped) key h =
      unwrap_private_key-KeyOf password (c ∷ wrapped) key cons-ne-nil h

module _ (K : Pki) (net : Network) where
  -- What Dial checks: that the bundle's leaf has the bundle's key, that its fleet CA holds
  -- certificates, and that a client takes its relay's address.
  abbrev pub Dialled : Bundle → Type 0
  Dialled b =
      (K.is_key_pair b.device_cert_pem b.device_key_pem ≡ true)
      × ((roots : List Cert) × (K.pool_of b.fleet_ca_pem ≡ some roots))
      × (net.new_client b.relay_addr ≡ true)

  pub dial-Dialled : (b : Bundle) → dial K net b ≡ ok tt → Dialled b
  unfolding dial
  dial-Dialled b h = elim (Bool-cases (K.is_key_pair b.device_cert_pem b.device_key_pem)) [
    | inr e ↦ let q = rw (e, dial) at h in cc
    | inl e ↦ elim (Option-cases (K.pool_of b.fleet_ca_pem)) [
      | inl none_held ↦ let q = rw (none_held, dial) at (rw (e, dial) at h) in cc
      | inr (roots, held) ↦
          let q = rw (held, dial) at (rw (e, dial) at h) in
          (e, (roots, held), reject_if-taken (net.new_client b.relay_addr) dial_relay q)
    ]
  ]

  -- The bundle's relay takes a TLS connection with the bundle's leaf, roots and server name.
  abbrev pub TakesConnection : Bundle → Type 0
  TakesConnection b =
      (K.is_key_pair b.device_cert_pem b.device_key_pem ≡ true)
      × ((roots : List Cert) × (K.pool_of b.fleet_ca_pem ≡ some roots)
          × (net.dial_tls roots b.device_cert_pem b.relay_server_name b.relay_addr ≡ true))

  reachable-TakesConnection : (b : Bundle) → reachable K net b ≡ true → TakesConnection b
  unfolding reachable
  reachable-TakesConnection b h =
      elim (Bool-cases (K.is_key_pair b.device_cert_pem b.device_key_pem)) [
        | inr e ↦ let q = rw (e, reachable) at h in cc
        | inl e ↦ elim (Option-cases (K.pool_of b.fleet_ca_pem)) [
          | inl none_held ↦ let q = rw (none_held, reachable) at (rw (e, reachable) at h) in cc
          | inr (roots, held) ↦ (e, (roots, held, rw (held, reachable) at (rw (e, reachable) at h)))
        ]
      ]

  TakesConnection-reachable : (b : Bundle) → TakesConnection b → reachable K net b ≡ true
  unfolding reachable
  TakesConnection-reachable b (e, (roots, held, taken)) =
      rw (e, reachable) (rw (held, reachable) taken)

  -- The two answers of Reachable.
  pub reachable_iff :
      (b : Bundle)
      → (reachable K net b ≡ true → TakesConnection b)
        × (TakesConnection b → reachable K net b ≡ true)
  reachable_iff b = (reachable-TakesConnection b, TakesConnection-reachable b)
