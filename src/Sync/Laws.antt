-- ===== src/Sync/Laws.antt =====
-- What Fetch says to the service, and what a fetched profile is.
use mathlib.Core.Path.{subst}
use caravel.Prelude.{
  ◌≡◌, ◌≢◌, ◌⊎◌, ◌∙◌, ap, inl, inr, refl, sym, Bool, true, false, Option, none, some, List, [], ◌∷◌,
}
use caravel.Prelude.Text.{Text}
use caravel.Crypto.{Primitives, CryptoJson, generate_key_pair, wrap_private_key}
use caravel.Sync.Calls.{
  Call, authenticate, enroll_keys, get_profile, Login, Service, local, log_in, enroll, pull,
}
use caravel.Sync.CallsLaws.{go_on-calls, log_in-calls, enroll-calls, pull-calls}
use caravel.Sync.Open.{decryption_key, open_profile}
use caravel.Sync.{Randomness, auth_pass, enroll_first_device, pull_and_open, after_login, exchange}

-- The calls of one Fetch, the newest first: nothing, or one login that comes first, with at most one
-- enrolment, which only a bundle without a key of its own makes, and at most one pull, both with a
-- session token.
pub data Conversation (own : Option Text) (login : Call) : List Call → Type 0 where
  silent : Conversation own login []
  logged_in : Conversation own login (login ∷ [])
  enrolled :
      (token public_key wrapped : Text)
      → own ≡ none
      → token ≢ []
      → Conversation own login (enroll_keys token public_key wrapped ∷ login ∷ [])
  pulled : (token : Text) → token ≢ [] → Conversation own login (get_profile token ∷ login ∷ [])
  enrolled_pulled :
      (token public_key wrapped : Text)
      → own ≡ none
      → token ≢ []
      → Conversation own login
          (get_profile token ∷ enroll_keys token public_key wrapped ∷ login ∷ [])

module _ (P : Primitives) (J : CryptoJson) (S : Service) where
  -- What the first-device branch adds to the calls.
  FirstDevice : Option Text → Login → List Call → List Call → Type 0
  FirstDevice own login calls later =
      (later ≡ calls)
      ⊎ ((public_key : Text) × (wrapped : Text) × (own ≡ none)
          × (login.session_token ≢ [])
          × (later ≡ enroll_keys login.session_token public_key wrapped ∷ calls))

  enroll-FirstDevice :
      (login : Login) (public_key wrapped : Text) (calls : List Call)
      → FirstDevice none login calls (enroll S login.session_token public_key wrapped calls).1
  unfolding FirstDevice
  enroll-FirstDevice login public_key wrapped calls =
      elim (enroll-calls S login.session_token public_key wrapped calls) [
        | inl same ↦ inl same
        | inr (t, more) ↦ inr (public_key, wrapped, refl, t, more)
      ]

  FirstDevice-calls :
      (enrolled : Bool) (rand : Randomness) (login : Login) (password : Text) (calls : List Call)
      → login.keys_enrolled ≡ enrolled
      → FirstDevice none login calls (enroll_first_device P J S rand none login password calls).1
  unfolding enroll_first_device FirstDevice
  FirstDevice-calls true rand login password calls e = rw e (inl refl)
  FirstDevice-calls false rand login password calls e = rw e (
      go_on-calls (FirstDevice none login calls) (local (generate_key_pair P rand.key) calls) _
        (inl refl)
        (λ kp _.
          go_on-calls (FirstDevice none login calls)
            (local (wrap_private_key P J rand.salt rand.nonce password kp.private) calls) _
            (inl refl) (λ wrapped _. enroll-FirstDevice login kp.public wrapped calls)))

  enroll_first_device-calls :
      (rand : Randomness) (own : Option Text) (login : Login) (password : Text) (calls : List Call)
      → FirstDevice own login calls (enroll_first_device P J S rand own login password calls).1
  unfolding enroll_first_device FirstDevice
  enroll_first_device-calls rand (some k) login password calls = inl refl
  enroll_first_device-calls rand none login password calls =
      FirstDevice-calls login.keys_enrolled rand login password calls refl

  -- What the end of Fetch adds to the calls.
  Pulls : Text → List Call → List Call → Type 0
  Pulls token calls later = (later ≡ calls) ⊎ ((token ≢ []) × (later ≡ get_profile token ∷ calls))

  pull_and_open-calls :
      (own : Option Text) (password : Text) (login : Login) (calls : List Call)
      → Pulls login.session_token calls (pull_and_open P J S own password login calls).1
  unfolding pull_and_open Pulls
  pull_and_open-calls own password login calls =
      let R : List Call → Type 0 = Pulls login.session_token calls in
      go_on-calls R (pull S login.session_token calls) _ (pull-calls S login.session_token calls)
        (λ rp _.
          let later : List Call = (pull S login.session_token calls).1 in
          go_on-calls R (local (decryption_key P J own password rp.wrapped_private_key) later) _
            (pull-calls S login.session_token calls)
            (λ k _.
              go_on-calls R (local (open_profile P J rp k) later) _
                (pull-calls S login.session_token calls)
                (λ pt _. pull-calls S login.session_token calls)))

  after-FirstDevice :
      (own : Option Text) (login : Call) (l : Login) (mid later : List Call)
      → FirstDevice own l (login ∷ []) mid
      → Pulls l.session_token mid later
      → Conversation own login later
  unfolding FirstDevice Pulls
  after-FirstDevice own login l mid later (inl e) (inl e') =
      subst (Conversation own login) (sym (e' ∙ e)) logged_in
  after-FirstDevice own login l mid later (inl e) (inr (t, e')) =
      subst (Conversation own login)
        (sym (e' ∙ ap (λ (c : List Call). get_profile l.session_token ∷ c) e))
        (pulled l.session_token t)
  after-FirstDevice own login l mid later (inr (pk, w, n, t, e)) (inl e') =
      subst (Conversation own login) (sym (e' ∙ e)) (enrolled l.session_token pk w n t)
  after-FirstDevice own login l mid later (inr (pk, w, n, t, e)) (inr (_, e')) =
      subst (Conversation own login)
        (sym (e' ∙ ap (λ (c : List Call). get_profile l.session_token ∷ c) e))
        (enrolled_pulled l.session_token pk w n t)

  FirstDevice-Conversation :
      (own : Option Text) (login : Call) (l : Login) (mid : List Call)
      → FirstDevice own l (login ∷ []) mid
      → Conversation own login mid
  unfolding Pulls
  FirstDevice-Conversation own login l mid f = after-FirstDevice own login l mid mid f (inl refl)

  after_login-Conversation :
      (rand : Randomness) (own : Option Text) (password : Text) (l : Login) (login : Call)
      → Conversation own login (after_login P J S rand own password l (login ∷ [])).1
  unfolding after_login
  after_login-Conversation rand own password l login =
      let first = enroll_first_device-calls rand own l password (login ∷ []) in
      go_on-calls (Conversation own login)
        (enroll_first_device P J S rand own l password (login ∷ [])) _
        (FirstDevice-Conversation own login l _ first)
        (λ _ _. after-FirstDevice own login l _ _ first (pull_and_open-calls own password l _))

  pub exchange-Conversation :
      (rand : Randomness) (own : Option Text) (email password : Text)
      → Conversation own
          (authenticate email (auth_pass email password))
          (exchange P J S rand own email password []).1
  unfolding exchange
  exchange-Conversation rand own email password =
      let pass : Text = auth_pass email password in
      let login : Call = authenticate email pass in
      let same = log_in-calls S email pass [] in
      go_on-calls (Conversation own login) (log_in S email pass []) _
        (subst (Conversation own login) (sym same) logged_in)
        (λ l _.
          subst
            (λ (c : List Call). Conversation own login (after_login P J S rand own password l c).1)
            (sym same) (after_login-Conversation rand own password l login))
