-- ===== src/Samples/Ciphers.antt =====
-- Ciphers that have the laws that the program relies on and hide nothing.
use caravel.Prelude.{
  ℕ, zero, suc, ◌≤◌, ◌≡◌, refl, ap, true, false, none, some, [], ◌∷◌, ◌++◌, length, eqb, eqb_iff,
  arith, Bool-cases, inl, inr, sym, ◌∙◌, if◌then◌else◌, Result, ok, err, panic, decrypt_failed, ltb,
  ok-injective,
}
use caravel.Prelude.Text.{Text, ◌==◌, eq_iff, eq_refl, strip_prefix}
use caravel.Prelude.TextLaws.{strip_prefix-append}
use caravel.Crypto.{Primitives, IsLawful}

-- The first n bytes, filled up with zeros.
abbrev pub pad : ℕ → Text → Text
pad zero s = []
pad (suc n) [] = 0 ∷ pad n []
pad (suc n) (c ∷ s) = c ∷ pad n s

length-pad : (n : ℕ) (s : Text) → length (pad n s) ≡ n
length-pad zero s = refl
length-pad (suc n) [] = ap suc (length-pad n [])
length-pad (suc n) (c ∷ s) = ap suc (length-pad n s)

abbrev pub kdf : Text → Text → ℕ → ℕ → ℕ → Result Text
kdf pass salt t m p =
    if ltb 0 t then if ltb 0 p then ok (pad 32 (pass ++ salt)) else panic else panic

unfoldable pub unseal : Text → Text → Result Text
unseal prefix ct = elim (strip_prefix prefix ct) [ none ↦ err decrypt_failed | some pt ↦ ok pt ]

abbrev pub seal_with : Text → Text → Text → Text → Result Text
seal_with key nonce pt aad =
    if eqb (length nonce) 24 then ok ((key ++ nonce ++ aad) ++ pt) else panic

abbrev pub open_with : Text → Text → Text → Text → Result Text
open_with key nonce ct aad =
    if eqb (length nonce) 24 then unseal (key ++ nonce ++ aad) ct else panic

-- The secret that all exchanges agree on.
abbrev pub common_secret : Text
common_secret = pad 32 (7 ∷ [])

-- A public key is its private one, filled up.
abbrev pub multiply : Text → Text → Result Text
multiply scalar point = if point == 9 ∷ [] then ok (pad 32 scalar) else ok common_secret

abbrev pub ciphers : Primitives
ciphers = record {
  argon2id = kdf;
  aead_key = λ k. eqb (length k) 32;
  aead_open = open_with;
  aead_seal = seal_with;
  x25519 = multiply;
  basepoint = 9 ∷ [];
  ed25519_verify = λ key message sig. sig == key ++ message;
  hkdf = λ secret info. ok (pad 32 secret);
}

open_with-seal_with :
    (key nonce pt aad ct : Text)
    → length nonce ≡ 24
    → seal_with key nonce pt aad ≡ ok ct
    → open_with key nonce ct aad ≡ ok pt
unfolding unseal
open_with-seal_with key nonce pt aad ct n h =
    let e : eqb (length nonce) 24 ≡ true = (eqb_iff (length nonce) 24).1 n in
    let same : ((key ++ nonce ++ aad) ++ pt) ≡ ct = ok-injective _ ct (rw e at h) in
    rw e (rw (← same) (rw (strip_prefix-append (key ++ nonce ++ aad) pt, unseal) refl))

kdf-key :
    (pass salt : Text) (t m p : ℕ)
    → 1 ≤ t
    → 1 ≤ p
    → (k : Text) × (kdf pass salt t m p ≡ ok k) × (length k ≡ 32)
kdf-key pass salt t m p a b =
    let e1 : ltb 0 t ≡ true = ground arith in
    let e2 : ltb 0 p ≡ true = ground arith in
    (pad 32 (pass ++ salt), rw (e1, e2) refl, length-pad 32 (pass ++ salt))

open_with-panic :
    (key nonce ct aad : Text) → eqb (length nonce) 24 ≡ false → open_with key nonce ct aad ≡ panic
open_with-panic key nonce ct aad h = rw h refl

not_base : (s : Text) → (pad 32 s == 9 ∷ []) ≡ false
not_base s = elim (Bool-cases (pad 32 s == 9 ∷ [])) [
  | inl e ↦
      let size : 32 ≡ 1 = sym (length-pad 32 s) ∙ ap length ((eq_iff (pad 32 s) (9 ∷ [])).0 e) in
      absurd (omega (arith, size))
  | inr e ↦ e
]

multiply-base : (a p : Text) → multiply a (9 ∷ []) ≡ ok p → p ≡ pad 32 a
multiply-base a p h = sym (ok-injective (pad 32 a) p (rw (eq_refl (9 ∷ [])) at h))

multiply-public : (a b p : Text) → multiply b (9 ∷ []) ≡ ok p → multiply a p ≡ ok common_secret
multiply-public a b p h = rw (multiply-base b p h, not_base b) refl

multiply-agree :
    (a b a_public b_public shared : Text)
    → multiply a (9 ∷ []) ≡ ok a_public
    → multiply b (9 ∷ []) ≡ ok b_public
    → multiply a b_public ≡ ok shared
    → multiply b a_public ≡ ok shared
multiply-agree a b a_public b_public shared h k e =
    multiply-public b a a_public h ∙ (sym (multiply-public a b b_public k) ∙ e)

pub ciphers-IsLawful : IsLawful ciphers
ciphers-IsLawful = record {
  argon2id-key = kdf-key;
  aead_key-length = λ key. refl;
  open-seal = λ key nonce pt aad ct _ n h. open_with-seal_with key nonce pt aad ct n h;
  x25519-agree = multiply-agree;
  open-panic = λ key nonce ct aad _ h. open_with-panic key nonce ct aad h;
}
