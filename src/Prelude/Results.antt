-- ===== src/Prelude/Results.antt =====
-- What a Go call returns: a value, an error, or nothing at all because it panicked.
use native.Mathlib.Omega.{arith}
use mathlib.Core.Path.{◌≡◌, refl}
use mathlib.Core.Logic.{◌⊎◌, inl, inr}
use mathlib.Core.Bool.{Bool, true, false, not}
use mathlib.Core.Option.{Option, none, some}
use Prim.Native.Nat.{ℕ}
use mathlib.Core.List.{List}
use caravel.Prelude.Tests.{ℤ}

-- The errors of all packages, one constructor for each message or sentinel. Where the message
-- quotes a value, the constructor holds it; a wrapped cause from outside the program has no detail.
pub data Error : Type 0 where
  -- profile
  not_pharos password_needed account_key_needed no_amnezia_wg no_xray_reality no_node no_profile :
      Error
  unsupported_ver : ℤ → Error
  unknown_enc : List ℕ → Error
  decode_payload decode_amneziawg decode_xray_reality no_endpoint : Error
  store_dir_required create_store_dir profile_not_found list_store : Error
  write_profile read_profile remove_profile : List ℕ → Error
  -- crypto
  wrong_password bad_signature decrypt_failed wrong_passphrase bad_key_size derive_public_key :
      Error
  generate_device_key : Error
  -- deviceid
  device_json not_device_bundle missing_relay_addr missing_fleet_ca missing_device_cert : Error
  missing_device_key malformed_encryption_key : Error
  unsupported_device_version : ℤ → Error
  encryption_key_size : ℕ → Error
  -- enroll
  empty_link unparsable_link wrong_scheme link_missing_relay link_missing_token : Error
  link_missing_ca bad_encryption_pub_size dial_relay claim_failed claim_incomplete : Error
  wrong_host : List ℕ → Error
  ca_mismatch : List ℕ → List ℕ → Error
  no_relay_cert no_fleet_ca unparsable_fleet_ca leaf_not_issued key_mismatch : Error
  -- sync
  device_leaf invalid_fleet_ca authenticate_failed not_authenticated enroll_failed : Error
  no_profile_issued get_profile_failed no_wrapped_key malformed_sealed_bundle : Error
  -- core
  not_initialized read_file dup_tun_fd tun_from_fd : Error
  -- vp
  bad_private_key bad_public_key bad_preshared_key configure_tunnel bring_up_tunnel : Error
  bad_xray_endpoint bad_xray_port reserve_socks_port start_xray_failed socks_bridge : Error
  -- cmd/caravel
  usage_error subcommand_required create_tun iface_name no_tunnel_address resolve_endpoint : Error
  command_failed no_egress_device not_root help_requested read_stdin connect_unsupported : Error
  unknown_command : List ℕ → Error
  bad_flag unknown_flag flag_argument bad_flag_value : List ℕ → Error

pub data Result {ℓ} (V : Type ℓ) : Type ℓ where
  panic : Result V
  ok : V → Result V
  err : Error → Result V

-- A call after another one: an error is returned at once, and a panic ends both.
infixl 5 ◌>>=◌ ◌>>◌
abbrev pub ◌>>=◌ {ℓ₁ ℓ₂} : {V : Type ℓ₁} {W : Type ℓ₂} → Result V → (V → Result W) → Result W
panic >>= next = panic
err cause >>= next = err cause
ok v >>= next = next v

-- The same where the first call returns only an error.
abbrev pub ◌>>◌ {ℓ} : {W : Type ℓ} → Result (Unit {0}) → Result W → Result W
first >> rest = first >>= λ (_ : Unit {0}). rest

-- `if bad { return err }`
abbrev pub reject_if : Bool → Error → Result (Unit {0})
reject_if true e = err e
reject_if false e = ok tt

-- The comma-ok of a lookup or decoder, with the error that the caller returns.
abbrev pub or_err {ℓ} : {A : Type ℓ} → Option A → Error → Result A
or_err none e = err e
or_err (some a) e = ok a

-- `if err != nil { return e }`: the cause is replaced, a panic goes on.
abbrev pub as_err {ℓ} : {A : Type ℓ} → Result A → Error → Result A
as_err (ok a) e = ok a
as_err (err _) e = err e
as_err panic e = panic

abbrev pub map_ok {ℓ κ} : {A : Type ℓ} {B : Type κ} → (A → B) → Result A → Result B
map_ok f (ok a) = ok (f a)
map_ok f (err e) = err e
map_ok f panic = panic

abbrev pub is_ok {ℓ} : {A : Type ℓ} → Result A → Bool
is_ok (ok _) = true
is_ok _ = false

pub Result-cases {ℓ} :
    {A : Type ℓ} (r : Result A)
    → ((a : A) × (r ≡ ok a)) ⊎ (((e : Error) × (r ≡ err e)) ⊎ (r ≡ panic))
Result-cases (ok a) = inl (a, refl)
Result-cases (err e) = inr (inl (e, refl))
Result-cases panic = inr (inr refl)

-- Where two calls after each other returned a value, so did the first one.
pub >>=-eq-ok {ℓ₁ ℓ₂} :
    {V : Type ℓ₁} {W : Type ℓ₂} (r : Result V) (next : V → Result W) {w : W}
    → (r >>= next) ≡ ok w
    → (v : V) × (r ≡ ok v) × (next v ≡ ok w)
>>=-eq-ok panic next e = cc
>>=-eq-ok (err cause) next e = cc
>>=-eq-ok (ok v) next e = (v, refl, e)

-- Inversion of a guard that let the code go on.
pub reject_if-eq-ok {ℓ} :
    {B : Type ℓ} (b : Bool) (e : Error) (k : Result B) {x : B}
    → (reject_if b e >> k) ≡ ok x
    → (b ≡ false) × (k ≡ ok x)
reject_if-eq-ok true e k h = cc
reject_if-eq-ok false e k h = (refl, h)

pub reject_if-taken : (b : Bool) (e : Error) → reject_if (not b) e ≡ ok tt → b ≡ true
reject_if-taken true e h = refl
reject_if-taken false e h = cc

pub ok-injective {ℓ} : {A : Type ℓ} (a b : A) → ok a ≡ ok b → a ≡ b
ok-injective a b h = cc

pub as_err-eq-ok {ℓ} :
    {A : Type ℓ} (r : Result A) (e : Error) {a : A} → as_err r e ≡ ok a → r ≡ ok a
as_err-eq-ok (ok x) e h = h
as_err-eq-ok (err x) e h = cc
as_err-eq-ok panic e h = cc

pub or_err-eq-ok {ℓ} :
    {A : Type ℓ} (o : Option A) (e : Error) {a : A} → or_err o e ≡ ok a → o ≡ some a
or_err-eq-ok none e h = cc
or_err-eq-ok (some x) e h = ground arith
