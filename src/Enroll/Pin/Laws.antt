-- ===== src/Enroll/Pin/Laws.antt =====
-- Which relays the pin accepts.
use caravel.Prelude.{
  ◌≡◌, refl, true, false, inl, inr, some, List, [], ◌∷◌, arith, Bool-cases, is_empty, ok, >>=-eq-ok,
  reject_if-eq-ok, or_err, or_err-eq-ok, no_fleet_ca, unparsable_fleet_ca,
}
use mathlib.Core.List.{Memᴰ}
use caravel.Prelude.Hex.{hex}
use caravel.Prelude.Members.{mem_of_any_of}
use caravel.Prelude.Text.{Text, ◌==◌, eq_iff}
use caravel.Enroll.Fingerprint.{cert_fingerprint}
use caravel.Enroll.Pin.{Cert, Pki, RelayPin, reaches_root, verify_leaf, verify_issued, verify}

module _ (K : Pki) where
  -- The two grounds of acceptance: a presented certificate has the pinned fingerprint, or the first
  -- one is issued, through the others, by the certificates that the response carried.
  pub data Accepts (pin : RelayPin) (fleet_ca_pem : Text) : Type 0 where
    by_root :
        (c : Cert) → Memᴰ c pin.chain → hex (K.sha256 c) ≡ pin.want_root → Accepts pin fleet_ca_pem
    by_fleet :
        (leaf : Cert) (inter roots : List Cert)
        → pin.chain ≡ leaf ∷ inter
        → K.pool_of fleet_ca_pem ≡ some roots
        → K.issues inter roots leaf ≡ true
        → Accepts pin fleet_ca_pem

  verify_leaf-Accepts :
      (pin : RelayPin) (fleet_ca_pem : Text) (roots chain : List Cert)
      → pin.chain ≡ chain
      → K.pool_of fleet_ca_pem ≡ some roots
      → verify_leaf K roots chain ≡ ok tt
      → Accepts pin fleet_ca_pem
  unfolding verify_leaf
  verify_leaf-Accepts pin fleet_ca_pem roots [] e p h = cc
  verify_leaf-Accepts pin fleet_ca_pem roots (leaf ∷ inter) e p h =
      by_fleet leaf inter roots e p (ground arith)

  issued :
      (pin : RelayPin) (fleet_ca_pem : Text)
      → reaches_root K pin ≡ false
      → verify K pin fleet_ca_pem ≡ ok tt
      → verify_issued K pin fleet_ca_pem ≡ ok tt
  unfolding verify
  issued pin fleet_ca_pem n h = elim (Bool-cases (is_empty pin.chain)) [
    | inl e ↦ absurd (ground arith)
    | inr e ↦ simp (e, n) at h
  ]

  -- A relay that `verify` accepts is accepted on one of the two grounds.
  pub verify-Accepts :
      (pin : RelayPin) (fleet_ca_pem : Text)
      → verify K pin fleet_ca_pem ≡ ok tt
      → Accepts pin fleet_ca_pem
  unfolding verify
  verify-Accepts pin fleet_ca_pem h = elim (Bool-cases (reaches_root K pin)) [
    | inl r ↦
        let (c, at, same) =
          mem_of_any_of (λ c. cert_fingerprint K.sha256 c == pin.want_root) pin.chain r in
        by_root c at (unfold cert_fingerprint in (eq_iff _ pin.want_root).0 same)
    | inr n ↦
        let g : verify_issued K pin fleet_ca_pem ≡ ok tt = issued pin fleet_ca_pem n h in
        let (_, h1) = reject_if-eq-ok (is_empty fleet_ca_pem) no_fleet_ca _ g in
        let (roots, p, h2) = >>=-eq-ok (or_err (K.pool_of fleet_ca_pem) unparsable_fleet_ca) _ h1 in
        verify_leaf-Accepts pin fleet_ca_pem roots pin.chain refl
          (or_err-eq-ok (K.pool_of fleet_ca_pem) unparsable_fleet_ca p) h2
  ]

  -- Where no presented certificate has the pinned fingerprint, the pinned fingerprint plays no part
  -- in the verdict: any other pin that no presented certificate has gives the same one.
  pub verify-root_unused :
      (pin : RelayPin) (other fleet_ca_pem : Text)
      → reaches_root K pin ≡ false
      → reaches_root K (record pin { want_root = other }) ≡ false
      → verify K (record pin { want_root = other }) fleet_ca_pem ≡ verify K pin fleet_ca_pem
  unfolding verify
  verify-root_unused pin other fleet_ca_pem a b = rw a (rw b)
