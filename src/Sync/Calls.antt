-- ===== src/Sync/Calls.antt =====
-- The calls of one AccountSync session of go/sync/client.go, and the service that answers them.
-- An operation takes the calls made so far, the newest first, and returns them with its own.
use caravel.Prelude.{
  ℤ, Bool, Option, none, some, List, [], ◌∷◌, if◌then◌else◌, Result, ok, err, panic,
}
use caravel.Prelude.{
  authenticate_failed, not_authenticated, enroll_failed, no_profile_issued, get_profile_failed,
}
use caravel.Prelude.Text.{Text, ◌==◌}

-- The three calls of the service that the client makes, with what they carry.
pub data Call : Type 0 where
  authenticate : Text → Text → Call
  enroll_keys : Text → Text → Text → Call
  get_profile : Text → Call

-- accountv1.AuthenticateResponse
pub record Login : Type 0 where
  pub session_token : Text
  pub user_id : Text
  pub keys_enrolled : Bool

-- RemoteProfile
pub record RemoteProfile : Type 0 where
  pub ciphertext : Text
  pub revision : ℤ
  pub signing_public_key : Text
  pub wrapped_private_key : Text

-- How a GetProfile call ends: with a profile, with codes.NotFound or with another error.
pub data Answer : Type 0 where
  issued : RemoteProfile → Answer
  not_found : Answer
  failed : Answer

-- The service behind the relay: what it answers to a call after the earlier calls of the session.
pub record Service : Type 0 where
  pub authenticates : List Call → Text → Text → Option Login
  pub enrolls : List Call → Text → Text → Text → Bool
  pub gives : List Call → Text → Answer

abbrev pub Session {ℓ} : Type ℓ → Type ℓ
Session A = List Call → Result A × List Call

infixl 5 ◌>>=◌ ◌>>◌
abbrev pub go_on {ℓ₁ ℓ₂} :
    {V : Type ℓ₁} {W : Type ℓ₂} → Result V × List Call → (V → Session W) → Result W × List Call
go_on (ok a, later) f = f a later
go_on (err e, later) f = (err e, later)
go_on (panic, later) f = (panic, later)

abbrev pub ◌>>=◌ {ℓ₁ ℓ₂} : {V : Type ℓ₁} {W : Type ℓ₂} → Session V → (V → Session W) → Session W
(first >>= next) calls = go_on (first calls) next

abbrev pub ◌>>◌ {ℓ} : {W : Type ℓ} → Session (Unit {0}) → Session W → Session W
first >> rest = first >>= λ (_ : Unit {0}). rest

-- An operation that makes no call.
abbrev pub local {ℓ} : {A : Type ℓ} → Result A → Session A
local r calls = (r, calls)

-- How GetProfile reads an answer.
abbrev pub answered : Answer → Result RemoteProfile
answered (issued rp) = ok rp
answered not_found = err no_profile_issued
answered failed = err get_profile_failed

module _ (S : Service) where
  -- (*Client).Authenticate, with the token that it stores.
  unfoldable pub log_in : Text → Text → Session Login
  log_in email password calls = elim (S.authenticates calls email password) [
    | none ↦ (err authenticate_failed, authenticate email password ∷ calls)
    | some l ↦ (ok l, authenticate email password ∷ calls)
  ]

  -- (*Client).EnrollKeys
  unfoldable pub enroll : Text → Text → Text → Session (Unit {0})
  enroll token public_key wrapped_private calls =
      if token == []
      then (err not_authenticated, calls)
      else if S.enrolls calls token public_key wrapped_private
      then (ok tt, enroll_keys token public_key wrapped_private ∷ calls)
      else (err enroll_failed, enroll_keys token public_key wrapped_private ∷ calls)

  -- (*Client).GetProfile
  unfoldable pub pull : Text → Session RemoteProfile
  pull token calls =
      if token == []
      then (err not_authenticated, calls)
      else (answered (S.gives calls token), get_profile token ∷ calls)
