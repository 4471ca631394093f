-- ===== src/Profile/Endpoint.antt =====
-- pickEndpoint, randPort and bareIP: the address that a tunnel dials.
pub mod Laws
use caravel.Prelude.{
  ℕ, ℤ, pos, suc, ◌+◌, ◌-◌, ◌%◌, Bool, not, none, List, [], ◌∷◌, leb, eqb, if◌then◌else◌, keep_if,
  length, get_elem?, Result, ok, err, panic, some, ◌>>=◌, no_endpoint, pos_part,
}
use caravel.Prelude.Decimal.{itoa}
use caravel.Prelude.Text.{Text, ◌==◌, before_byte}
use caravel.Profile.HostPort.{join_host_port}
use caravel.Profile.Types.{EndpointPool, default_client_port}

-- rand.IntN(n) for a positive n: any number is a possible random word, and each of 0 .. n-1 is the
-- result of one.
unfoldable pub int_n : ℕ → ℕ → ℕ
int_n word n = word % n

-- The two random words of one pick.
pub record Words : Type 0 where
  pub entry : ℕ
  pub port : ℕ

-- randPort. An unset or negative `min` becomes the client port; the result is then positive.
unfoldable pub rand_port : ℕ → ℤ → ℤ → ℕ
unfolding int_n
rand_port word min max =
    let lo = if eqb (pos_part min) 0 then default_client_port else pos_part min in
    if leb (pos_part max) lo then lo else lo + int_n word (pos_part max - lo + 1)

-- The pool's entries that carry an address, and the addresses that are not empty.
abbrev pub usable_pool : List EndpointPool → List EndpointPool
usable_pool = keep_if (λ ep. not (ep.ip == []))

abbrev pub usable_ips : List Text → List Text
usable_ips = keep_if (λ ip. not (ip == []))

-- xs[rand.IntN(len(xs))]; an index out of range would panic.
pick {ℓ} : {A : Type ℓ} → ℕ → List A → Result A
unfolding int_n
pick word xs = elim (get_elem? xs (int_n word (length xs))) [ none ↦ panic | some x ↦ ok x ]

pick_from : Words → List EndpointPool → List Text → Result Text
unfolding pick rand_port
pick_from w (ep ∷ pool) ips = do
  chosen ← pick w.entry (ep ∷ pool)
  ok (join_host_port chosen.ip (itoa (rand_port w.port chosen.port_min chosen.port_max)))
pick_from w [] (ip ∷ ips) = do
  chosen ← pick w.entry (ip ∷ ips)
  ok (join_host_port chosen (itoa default_client_port))
pick_from w [] [] = err no_endpoint

-- pickEndpoint
unfoldable pub pick_endpoint : Words → List EndpointPool → List Text → Result Text
unfolding pick_from
pick_endpoint w endpoints fallback_ips =
    pick_from w (usable_pool endpoints) (usable_ips fallback_ips)

-- bareIP
unfoldable pub bare_ip : Text → Text
bare_ip addr = before_byte b'/' addr
