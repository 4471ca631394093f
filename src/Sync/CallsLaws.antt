-- ===== src/Sync/CallsLaws.antt =====
-- Runs of session operations: what a successful chain consists of, and what holds of its calls.
use caravel.Prelude.{◌≡◌, ◌≢◌, ◌⊎◌, refl, false, arith, some, List, [], ◌∷◌, Result, ok, err, panic}
use caravel.Prelude.Text.{Text, ◌==◌, eq_iff}
use caravel.Sync.Calls.{
  Call, authenticate, enroll_keys, get_profile, Login, RemoteProfile, issued, Service, Session,
  go_on, log_in, enroll, pull,
}

-- A predicate of the calls that each part of a chain keeps, the chain keeps.
pub go_on-calls {ℓ κ ι} :
    {A : Type ℓ} {B : Type κ} (R : List Call → Type ι) (r : Result A × List Call)
    (f : A → Session B)
    → R r.1
    → ((a : A) → r.0 ≡ ok a → R (f a r.1).1)
    → R (go_on r f).1
go_on-calls R (ok a, later) f before after = after a refl
go_on-calls R (err x, later) f before after = before
go_on-calls R (panic, later) f before after = before

-- Inversion of a chain that returned a value.
pub go_on-eq-ok {ℓ κ} :
    {A : Type ℓ} {B : Type κ} (r : Result A × List Call) (f : A → Session B) {b : B}
    → (go_on r f).0 ≡ ok b
    → (a : A) × (r.0 ≡ ok a) × ((f a r.1).0 ≡ ok b)
go_on-eq-ok (ok a, later) f h = (a, refl, h)
go_on-eq-ok (err x, later) f h = cc
go_on-eq-ok (panic, later) f h = cc

module _ (S : Service) where
  pub log_in-calls :
      (email password : Text) (calls : List Call)
      → (log_in S email password calls).1 ≡ authenticate email password ∷ calls
  unfolding log_in
  log_in-calls email password calls = ground arith

  pub enroll-calls :
      (token public_key wrapped : Text) (calls : List Call)
      → ((enroll S token public_key wrapped calls).1 ≡ calls)
        ⊎ ((token ≢ [])
            × ((enroll S token public_key wrapped calls).1
                ≡ enroll_keys token public_key wrapped ∷ calls))
  unfolding enroll
  enroll-calls token public_key wrapped calls = ground (arith, eq_iff token [])

  pub pull-calls :
      (token : Text) (calls : List Call)
      → ((pull S token calls).1 ≡ calls)
        ⊎ ((token ≢ []) × ((pull S token calls).1 ≡ get_profile token ∷ calls))
  unfolding pull
  pull-calls token calls = ground (arith, eq_iff token [])

  -- A profile was pulled with a token and is what the service gave.
  pub pull-eq-ok :
      (token : Text) (calls : List Call) (rp : RemoteProfile)
      → (pull S token calls).0 ≡ ok rp
      → (token ≢ []) × (S.gives calls token ≡ issued rp)
  unfolding pull
  pull-eq-ok token calls rp h = ground (arith, eq_iff token [])

  pub pull-issued :
      (token : Text) (calls : List Call) (rp : RemoteProfile)
      → token ≢ []
      → S.gives calls token ≡ issued rp
      → pull S token calls ≡ (ok rp, get_profile token ∷ calls)
  unfolding pull
  pull-issued token calls rp t g =
      let some_token : (token == []) ≡ false = ground (arith, eq_iff token []) in
      rw some_token (rw g refl)

  pub log_in-some :
      (email password : Text) (calls : List Call) (l : Login)
      → S.authenticates calls email password ≡ some l
      → log_in S email password calls ≡ (ok l, authenticate email password ∷ calls)
  unfolding log_in
  log_in-some email password calls l h = rw (h, log_in) refl
