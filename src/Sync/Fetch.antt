-- ===== src/Sync/Fetch.antt =====
-- Fetch as a whole: the session it holds, the profile it returns, and when it returns one.
use mathlib.Core.Path.{subst}
use caravel.Prelude.{
  ◌≡◌, ◌≢◌, refl, sym, ◌∙◌, true, Option, some, List, [], ◌∷◌, ok, as_err, as_err-eq-ok, >>=-eq-ok,
  ok-injective, malformed_sealed_bundle, if◌then◌else◌,
}
use caravel.Prelude.Text.{Text, ◌==◌}
use caravel.Crypto.{
  Primitives, IsLawful, CryptoJson, SealedBundle, open_sealed, signing_bytes,
  verify_profile_signature,
}
use caravel.Crypto.Seal.{SealedTo, open_sealed-verified, open_sealed-SealedTo}
use caravel.DeviceId.{Bundle, Pem, encryption_private_key}
use caravel.Enroll.Pin.{Pki}
use caravel.Sync.Calls.{
  Call, authenticate, Login, RemoteProfile, issued, Service, local, log_in, pull,
}
use caravel.Sync.CallsLaws.{go_on-calls, go_on-eq-ok, pull-eq-ok, pull-issued, log_in-some}
use caravel.Sync.Checks.{KeyOf, decryption_key-KeyOf, Dialled, dial-Dialled}
use caravel.Sync.Laws.{Conversation, silent, exchange-Conversation}
use caravel.Sync.Open.{decryption_key, open_profile}
use caravel.Sync.{
  Fetched, Network, Randomness, dial, auth_pass, enroll_first_device, pull_and_open, after_login,
  exchange, fetch,
}

module _ (P : Primitives) (J : CryptoJson) where
  open_profile-eq-ok :
      (rp : RemoteProfile) (key pt : Text)
      → open_profile P J rp key ≡ ok pt
      → (bundle : SealedBundle) × (J.sealed.unmarshal rp.ciphertext ≡ ok bundle)
        × (open_sealed P J bundle key rp.signing_public_key ≡ ok pt)
  unfolding open_profile
  open_profile-eq-ok rp key pt h =
      let (b, e, h1) =
        >>=-eq-ok (as_err (J.sealed.unmarshal rp.ciphertext) malformed_sealed_bundle) _ h in
      (b, as_err-eq-ok _ malformed_sealed_bundle e, h1)

-- A fetched profile: the service gave it to a session with a token; its plaintext is what the
-- returned sealed bundle opens to with the returned device key, under a signature that the returned
-- signer key verifies; the device key is the bundle's own, or else was unwrapped from the answer.
pub record Opened (P : Primitives) (J : CryptoJson) (S : Service) (own : Option Text)
    (password : Text) (res : Fetched) : Type 0 where
  pub calls : List Call
  pub token : Text
  pub has_token : token ≢ []
  pub remote : RemoteProfile
  pub given : S.gives calls token ≡ issued remote
  pub same_text : res.sealed ≡ remote.ciphertext
  pub same_signer : res.signer_public ≡ remote.signing_public_key
  pub same_revision : res.revision ≡ remote.revision
  pub keyed : KeyOf P J own password remote.wrapped_private_key res.device_key
  pub bundle : SealedBundle
  pub sealed : J.sealed.unmarshal res.sealed ≡ ok bundle
  pub opens : open_sealed P J bundle res.device_key res.signer_public ≡ ok res.plaintext
  pub signed : Text
  pub signing : signing_bytes J bundle ≡ ok signed
  pub verified : verify_profile_signature P signed bundle.signature res.signer_public ≡ true

module _ (P : Primitives) (J : CryptoJson) (S : Service) where
  pull_and_open-Opened :
      (own : Option Text) (password : Text) (l : Login) (calls : List Call) (res : Fetched)
      → (pull_and_open P J S own password l calls).0 ≡ ok res
      → Opened P J S own password res
  unfolding pull_and_open
  pull_and_open-Opened own password l calls res h =
      let (rp, e, h1) = go_on-eq-ok (pull S l.session_token calls) _ h in
      let (k, keyed, h2) =
        go_on-eq-ok (local (decryption_key P J own password rp.wrapped_private_key) _) _ h1 in
      let (pt, opened, h3) = go_on-eq-ok (local (open_profile P J rp k) _) _ h2 in
      let (t, given) = pull-eq-ok S l.session_token calls rp e in
      let (b, sealed, opens) = open_profile-eq-ok P J rp k pt opened in
      let (signed, signing, verified) =
        open_sealed-verified P J b k rp.signing_public_key pt opens in
      subst (Opened P J S own password)
        (ok-injective
          (record {
            user_id = l.user_id;
            revision = rp.revision;
            plaintext = pt;
            sealed = rp.ciphertext;
            signer_public = rp.signing_public_key;
            device_key = k;
          })
          res h3)
        (record {
          calls = calls;
          token = l.session_token;
          has_token = t;
          remote = rp;
          given = given;
          same_text = refl;
          same_signer = refl;
          same_revision = refl;
          keyed = decryption_key-KeyOf P J own password rp.wrapped_private_key k keyed;
          bundle = b;
          sealed = sealed;
          opens = opens;
          signed = signed;
          signing = signing;
          verified = verified;
        })

  exchange-Opened :
      (rand : Randomness) (own : Option Text) (email password : Text) (calls : List Call)
      (res : Fetched)
      → (exchange P J S rand own email password calls).0 ≡ ok res
      → Opened P J S own password res
  unfolding exchange after_login
  exchange-Opened rand own email password calls res h =
      let (l, _, h1) = go_on-eq-ok (log_in S email (auth_pass email password) calls) _ h in
      let (_, _, h2) = go_on-eq-ok (enroll_first_device P J S rand own l password _) _ h1 in
      pull_and_open-Opened own password l _ res h2

  -- A per-device exchange with a session token and a profile sealed to the device's key.
  exchange-SealedTo :
      (lawful : IsLawful P) (rand : Randomness) (key email password pt : Text) (l : Login)
      (rp : RemoteProfile) (b : SealedBundle)
      → S.authenticates [] email (auth_pass email password) ≡ some l
      → l.session_token ≢ []
      → S.gives (authenticate email (auth_pass email password) ∷ []) l.session_token ≡ issued rp
      → J.sealed.unmarshal rp.ciphertext ≡ ok b
      → SealedTo P J b key rp.signing_public_key pt
      → (exchange P J S rand (some key) email password []).0
        ≡ ok (record {
          user_id = l.user_id;
          revision = rp.revision;
          plaintext = pt;
          sealed = rp.ciphertext;
          signer_public = rp.signing_public_key;
          device_key = key;
        })
  unfolding exchange after_login pull_and_open enroll_first_device decryption_key open_profile
  exchange-SealedTo lawful rand key email password pt l rp b a t g u s =
      let login : Call = authenticate email (auth_pass email password) in
      let opened : open_sealed P J b key rp.signing_public_key ≡ ok pt =
        open_sealed-SealedTo P J lawful b key rp.signing_public_key pt s in
      rw (log_in-some S email (auth_pass email password) [] l a)
        (rw (pull-issued S l.session_token (login ∷ []) rp t g) (rw u (rw opened refl)))

module _ (P : Primitives) (E : Pem) (J : CryptoJson) (K : Pki) (net : Network) (S : Service) where
  -- The calls of a Fetch for a bundle whose own key, or lack of one, was read: at most one login comes
  -- first, with no password unless there is an email; only a bundle without a key enrols one; a
  -- profile is pulled last; enrolment and pull have a session token.
  pub fetch-Conversation :
      (rand : Randomness) (b : Bundle) (own : Option Text) (email password : Text)
      → encryption_private_key E b ≡ ok own
      → Conversation own
          (authenticate email (if email == [] then [] else password))
          (fetch P E J K net S rand b email password []).1
  unfolding fetch
  fetch-Conversation rand b own email password h =
      let C : List Call → Type 0 =
        Conversation own (authenticate email (auth_pass email password)) in
      go_on-calls C (local (encryption_private_key E b) []) _ silent (λ key e.
        go_on-calls C (local (dial K net b) []) _ silent (λ _ _.
          subst (λ (k : Option Text). C (exchange P J S rand k email password []).1)
            (ok-injective own key (sym h ∙ e))
            (exchange-Conversation P J S rand own email password)))

  -- A profile that Fetch returns was given by the service to a session with a token, once the bundle's
  -- leaf was found to have the bundle's key, its fleet CA to hold certificates, and its relay's address
  -- to be one that a client takes. Its plaintext is what the sealed text of that answer opens to, under
  -- a signature that the signer key of the same answer verifies, with the bundle's own key or, where it
  -- has none, with what the answer's wrapped key holds under the password by Argon2id and the AEAD.
  pub fetch-Opened :
      (rand : Randomness) (b : Bundle) (email password : Text) (res : Fetched)
      → (fetch P E J K net S rand b email password []).0 ≡ ok res
      → (own : Option Text) × (encryption_private_key E b ≡ ok own)
        × Dialled K net b
        × Opened P J S own password res
  unfolding fetch
  fetch-Opened rand b email password res h =
      let (own, e1, h1) = go_on-eq-ok (local (encryption_private_key E b) []) _ h in
      let (_, e2, h2) = go_on-eq-ok (local (dial K net b) []) _ h1 in
      (own, e1, dial-Dialled K net b e2, exchange-Opened P J S rand own email password [] res h2)

  -- The controller's signing key that a bundle has pinned at its enrollment plays no part in a Fetch:
  -- with any other one in its place the Fetch makes the same calls and returns the same.
  pub fetch-signing_key_unused :
      (rand : Randomness) (b : Bundle) (pinned email password : Text)
      → fetch P E J K net S rand (record b { signing_public_key = pinned }) email password []
        ≡ fetch P E J K net S rand b email password []
  unfolding fetch dial encryption_private_key
  fetch-signing_key_unused rand b pinned email password = refl

  -- For a bundle with a key of its own and a dialled relay, a service that answers the login with a
  -- session token and then gives a profile sealed to that key makes Fetch return its plaintext,
  -- whatever the password and the wrapped key in the answer are.
  pub fetch-SealedTo :
      (lawful : IsLawful P) (rand : Randomness) (b : Bundle) (key email password pt : Text)
      (l : Login) (rp : RemoteProfile) (sb : SealedBundle)
      → encryption_private_key E b ≡ ok (some key)
      → dial K net b ≡ ok tt
      → S.authenticates [] email (auth_pass email password) ≡ some l
      → l.session_token ≢ []
      → S.gives (authenticate email (auth_pass email password) ∷ []) l.session_token ≡ issued rp
      → J.sealed.unmarshal rp.ciphertext ≡ ok sb
      → SealedTo P J sb key rp.signing_public_key pt
      → (fetch P E J K net S rand b email password []).0
        ≡ ok (record {
          user_id = l.user_id;
          revision = rp.revision;
          plaintext = pt;
          sealed = rp.ciphertext;
          signer_public = rp.signing_public_key;
          device_key = key;
        })
  unfolding fetch
  fetch-SealedTo lawful rand b key email password pt l rp sb k d a t g u s =
      rw k (rw d (exchange-SealedTo P J S lawful rand key email password pt l rp sb a t g u s))
