-- ===== src/Vp/Engine/Values.antt =====
-- What the settings of a configuration say under each key.
use caravel.Prelude.{
  ℕ, pos_part, ltb, ◌≡◌, refl, ap, ◌∙◌, Bool-cases, inl, inr, List, [], ◌∷◌, ◌++◌, map, is_empty,
  if◌then◌else◌,
}
use caravel.Prelude.Decimal.{itoa}
use caravel.Prelude.Text.{Text, bytes, ◌==◌}
use caravel.Vp.Engine.{
  Obfuscation, Config, given, obfuscation_settings, default_routes, peer_settings,
}

-- The values of a key, in their order.
abbrev pub values : Text → List (Text × Text) → List Text
values key [] = []
values key ((k, v) ∷ ss) = let rest = values key ss in if k == key then v ∷ rest else rest

-- The value of a setting that is left out where it is the empty text.
abbrev pub if_set : Text → List Text
if_set v = if v == [] then [] else v ∷ []

values-append :
    (key : Text) (ss ts : List (Text × Text))
    → values key (ss ++ ts) ≡ values key ss ++ values key ts
values-append key [] ts = refl
values-append key ((k, v) ∷ ss) ts = elim (Bool-cases (k == key)) [
  | inl e ↦ rw e (ap (λ (l : List Text). v ∷ l) (values-append key ss ts))
  | inr e ↦ rw e (values-append key ss ts)
]

-- What a setting holds under a key.
values-given : (key k v : Text) → values key (given k v) ≡ (if k == key then if_set v else [])
values-given key k v = elim (Bool-cases (v == [])) [
  | inl e ↦ elim (Bool-cases (k == key)) [ inl f ↦ rw (e, f) refl | inr f ↦ rw (e, f) refl ]
  | inr e ↦ elim (Bool-cases (k == key)) [ inl f ↦ rw (e, f) refl | inr f ↦ rw (e, f) refl ]
]

values-repeated :
    (key k : Text) (vs : List Text)
    → values key (map (λ v. (k, v)) vs) ≡ (if k == key then vs else [])
values-repeated key k [] = elim (Bool-cases (k == key)) [ inl e ↦ rw e refl | inr e ↦ rw e refl ]
values-repeated key k (v ∷ vs) = elim (Bool-cases (k == key)) [
  | inl e ↦ rw e (ap (λ (l : List Text). v ∷ l) (values-repeated key k vs ∙ rw e refl))
  | inr e ↦ rw e (values-repeated key k vs ∙ rw e refl)
]

append-nil_right : (l : List Text) → l ++ [] ≡ l
append-nil_right [] = refl
append-nil_right (x ∷ xs) = ap (λ (l : List Text). x ∷ l) (append-nil_right xs)

-- What the last settings of the interface hold under a key.
specials-values :
    (key : Text) (o : Obfuscation)
    → values key (
        given (bytes "i1") o.i1
        ++ (given (bytes "i2") o.i2
            ++ (given (bytes "i3") o.i3 ++ (given (bytes "i4") o.i4 ++ given (bytes "i5") o.i5))))
      ≡ (if bytes "i1" == key then if_set o.i1 else [])
        ++ ((if bytes "i2" == key then if_set o.i2 else [])
            ++ ((if bytes "i3" == key then if_set o.i3 else [])
                ++ ((if bytes "i4" == key then if_set o.i4 else [])
                    ++ (if bytes "i5" == key then if_set o.i5 else []))))
specials-values key o =
    rw
      (
        values-append key (given (bytes "i1") o.i1),
        values-append key (given (bytes "i2") o.i2),
        values-append key (given (bytes "i3") o.i3),
        values-append key (given (bytes "i4") o.i4),
        values-given key (bytes "i1") o.i1,
        values-given key (bytes "i2") o.i2,
        values-given key (bytes "i3") o.i3,
        values-given key (bytes "i4") o.i4,
        values-given key (bytes "i5") o.i5,
      )
      refl

-- The numbers of the obfuscation, each under its own key.
pub record Obfuscates (o : Obfuscation) (ss : List (Text × Text)) : Type 0 where
  pub has_jc : values (bytes "jc") ss ≡ itoa o.jc ∷ []
  pub has_jmin : values (bytes "jmin") ss ≡ itoa o.jmin ∷ []
  pub has_jmax : values (bytes "jmax") ss ≡ itoa o.jmax ∷ []
  pub has_s1 : values (bytes "s1") ss ≡ itoa o.s1 ∷ []
  pub has_s2 : values (bytes "s2") ss ≡ itoa o.s2 ∷ []
  pub has_s3 : values (bytes "s3") ss ≡ itoa o.s3 ∷ []
  pub has_s4 : values (bytes "s4") ss ≡ itoa o.s4 ∷ []
  pub has_h1 : values (bytes "h1") ss ≡ itoa o.h1 ∷ []
  pub has_h2 : values (bytes "h2") ss ≡ itoa o.h2 ∷ []
  pub has_h3 : values (bytes "h3") ss ≡ itoa o.h3 ∷ []
  pub has_h4 : values (bytes "h4") ss ≡ itoa o.h4 ∷ []
  pub has_i1 : values (bytes "i1") ss ≡ if_set o.i1
  pub has_i2 : values (bytes "i2") ss ≡ if_set o.i2
  pub has_i3 : values (bytes "i3") ss ≡ if_set o.i3
  pub has_i4 : values (bytes "i4") ss ≡ if_set o.i4
  pub has_i5 : values (bytes "i5") ss ≡ if_set o.i5

pub obfuscation-Obfuscates : (o : Obfuscation) → Obfuscates o (obfuscation_settings o)
unfolding obfuscation_settings ◌==◌
obfuscation-Obfuscates o = record {
  has_jc = ap (λ (l : List Text). itoa o.jc ∷ l) (specials-values (bytes "jc") o);
  has_jmin = ap (λ (l : List Text). itoa o.jmin ∷ l) (specials-values (bytes "jmin") o);
  has_jmax = ap (λ (l : List Text). itoa o.jmax ∷ l) (specials-values (bytes "jmax") o);
  has_s1 = ap (λ (l : List Text). itoa o.s1 ∷ l) (specials-values (bytes "s1") o);
  has_s2 = ap (λ (l : List Text). itoa o.s2 ∷ l) (specials-values (bytes "s2") o);
  has_s3 = ap (λ (l : List Text). itoa o.s3 ∷ l) (specials-values (bytes "s3") o);
  has_s4 = ap (λ (l : List Text). itoa o.s4 ∷ l) (specials-values (bytes "s4") o);
  has_h1 = ap (λ (l : List Text). itoa o.h1 ∷ l) (specials-values (bytes "h1") o);
  has_h2 = ap (λ (l : List Text). itoa o.h2 ∷ l) (specials-values (bytes "h2") o);
  has_h3 = ap (λ (l : List Text). itoa o.h3 ∷ l) (specials-values (bytes "h3") o);
  has_h4 = ap (λ (l : List Text). itoa o.h4 ∷ l) (specials-values (bytes "h4") o);
  has_i1 = specials-values (bytes "i1") o ∙ append-nil_right (if_set o.i1);
  has_i2 = specials-values (bytes "i2") o ∙ append-nil_right (if_set o.i2);
  has_i3 = specials-values (bytes "i3") o ∙ append-nil_right (if_set o.i3);
  has_i4 = specials-values (bytes "i4") o ∙ append-nil_right (if_set o.i4);
  has_i5 = specials-values (bytes "i5") o;
}

-- The other settings of a peer.
pub record Peers (cfg : Config) (peer : List (Text × Text)) : Type 0 where
  pub has_endpoint : values (bytes "endpoint") peer ≡ if_set cfg.endpoint
  pub has_keepalive :
      values (bytes "persistent_keepalive_interval") peer
      ≡ (if ltb 0 (pos_part cfg.keepalive) then itoa (pos_part cfg.keepalive) ∷ [] else [])
  pub has_routes : values (bytes "allowed_ip") peer ≡ (
      if is_empty cfg.allowed_ips then bytes "0.0.0.0/0" ∷ bytes "::/0" ∷ [] else cfg.allowed_ips)

values-keepalive :
    (key : Text) (n : ℕ)
    → values key (if ltb 0 n then (bytes "persistent_keepalive_interval", itoa n) ∷ [] else []) ≡ (
        if bytes "persistent_keepalive_interval" == key
        then if ltb 0 n then itoa n ∷ [] else []
        else [])
values-keepalive key n = elim (Bool-cases (ltb 0 n)) [
  | inl e ↦ elim (Bool-cases (bytes "persistent_keepalive_interval" == key)) [
    | inl f ↦ rw (e, f) refl
    | inr f ↦ rw (e, f) refl
  ]
  | inr e ↦ elim (Bool-cases (bytes "persistent_keepalive_interval" == key)) [
    | inl f ↦ rw (e, f) refl
    | inr f ↦ rw (e, f) refl
  ]
]

module _ (cfg : Config) (psk : Text) where
  -- What the peer's settings hold under a key.
  peer-values :
      (key : Text)
      → values key (peer_settings cfg psk)
        ≡ (if bytes "preshared_key" == key then if_set psk else [])
          ++ ((if bytes "endpoint" == key then if_set cfg.endpoint else [])
              ++ ((if bytes "persistent_keepalive_interval" == key
                    then if ltb 0 (pos_part cfg.keepalive)
                      then itoa (pos_part cfg.keepalive) ∷ []
                      else []
                    else [])
                  ++ (if bytes "allowed_ip" == key
                      then if is_empty cfg.allowed_ips then default_routes else cfg.allowed_ips
                      else [])))
  unfolding peer_settings
  peer-values key =
      rw
        (
          values-append key (given (bytes "preshared_key") psk),
          values-append key (given (bytes "endpoint") cfg.endpoint),
          values-append key (
              if ltb 0 (pos_part cfg.keepalive)
              then (bytes "persistent_keepalive_interval", itoa (pos_part cfg.keepalive)) ∷ []
              else []),
          values-given key (bytes "preshared_key") psk,
          values-given key (bytes "endpoint") cfg.endpoint,
          values-keepalive key (pos_part cfg.keepalive),
          values-repeated key (bytes "allowed_ip")
              (if is_empty cfg.allowed_ips then default_routes else cfg.allowed_ips),
        )
        refl

  pub peer-psk : values (bytes "preshared_key") (peer_settings cfg psk) ≡ if_set psk
  unfolding ◌==◌
  peer-psk = peer-values (bytes "preshared_key") ∙ append-nil_right (if_set psk)

  pub peer-Peers : Peers cfg (peer_settings cfg psk)
  unfolding ◌==◌
  peer-Peers = record {
    has_endpoint = peer-values (bytes "endpoint") ∙ append-nil_right (if_set cfg.endpoint);
    has_keepalive = peer-values (bytes "persistent_keepalive_interval") ∙ append-nil_right _;
    has_routes = peer-values (bytes "allowed_ip");
  }
