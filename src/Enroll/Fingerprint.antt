-- ===== src/Enroll/Fingerprint.antt =====
-- certFingerprint, normalizeFingerprint and equalFingerprint of go/enroll/claim.go.
pub mod Laws
use caravel.Prelude.{
  ℕ, ◌+◌, ◌-◌, ◌≡◌, refl, ap, ◌∙◌, Bool, true, false, not, ◌&&◌, ◌||◌, none, List, [], ◌∷◌, ◌++◌,
  map, arith, Bool-cases, inl, inr, leb, eqb, if◌then◌else◌, any_of, all_of, any_of-append, keep_if,
}
use caravel.Prelude.Hex.{hex}
use caravel.Prelude.Text.{
  Text, bytes, ◌==◌, eq_refl, has_byte, trim_space, trim_left, is_space, to_lower, lower,
  trim_prefix, strip_prefix, remove_byte,
}

-- certFingerprint of a certificate's DER, over the SHA-256 of the standard library.
unfoldable pub cert_fingerprint : (Text → Text) → Text → Text
cert_fingerprint sha256 der = hex (sha256 der)

-- normalizeFingerprint
unfoldable pub normalize_fingerprint : Text → Text
normalize_fingerprint s = remove_byte b':' (trim_prefix (trim_space (to_lower s)) (bytes "sha256:"))

-- equalFingerprint
unfoldable pub equal_fingerprint : Text → Text → Bool
equal_fingerprint a b = normalize_fingerprint a == normalize_fingerprint b
