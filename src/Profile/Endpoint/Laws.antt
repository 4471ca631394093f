-- ===== src/Profile/Endpoint/Laws.antt =====
-- What pickEndpoint may return, described without its code.
use mathlib.Core.List.{Memᴰ}
use mathlib.Core.List.Memᴰ.{head, tail}
use native.Mathlib.Nat.{mod-eq_of_lt, mod-lt}
use caravel.Prelude.Members.{mem_of_keep_if, mem-keep_if, mem_of_get_elem?, get_elem?_of_mem}
use caravel.Prelude.{
  ℕ, ℤ, ◌+◌, ◌-◌, ◌%◌, ◌≤◌, ◌<◌, ◌≡◌, ◌≢◌, refl, true, not, List, [], ◌∷◌, arith, length, leb, eqb,
  if◌then◌else◌, Bool-cases, ◌⊎◌, inl, inr, ok, err, no_endpoint, pos_part, get_elem?-lt,
}
use caravel.Prelude.Decimal.{itoa}
use caravel.Prelude.Text.{Text, ◌==◌, eq_iff, eq_refl}
use caravel.Profile.HostPort.{join_host_port}
use caravel.Profile.Types.{EndpointPool, default_client_port}
use caravel.Profile.Endpoint.{
  Words, rand_port, usable_pool, usable_ips, pick, pick_from, pick_endpoint,
}

-- The lower end of a range: an unset one is the client port.
abbrev pub IsLow : ℤ → ℕ → Type 0
IsLow min lo = (0 < pos_part min) × (lo ≡ pos_part min) ⊎ (pos_part min ≡ 0) × (lo ≡ 443)

-- The ports of a range; an upper end that is not above the lower one leaves the single port.
pub record InRange (min max : ℤ) (port : ℕ) : Type 0 where
  pub lo : ℕ
  pub is_low : IsLow min lo
  pub fits :
      (lo < pos_part max) × (lo ≤ port) × (port ≤ pos_part max) ⊎ (pos_part max ≤ lo) × (port ≡ lo)

-- The hosts and ports that a node offers: an entry of the pool that has an address, with a port of
-- its range; if there is none, an address of the flat list at the client port.
pub data Offered (pool : List EndpointPool) (ips : List Text) : Text → ℕ → Type 0 where
  pooled :
      (ep : EndpointPool) (port : ℕ)
      → Memᴰ ep pool
      → ep.ip ≢ []
      → InRange ep.port_min ep.port_max port
      → Offered pool ips ep.ip port
  flat :
      (ip : Text)
      → ((ep : EndpointPool) → Memᴰ ep pool → ep.ip ≡ [])
      → Memᴰ ip ips
      → ip ≢ []
      → Offered pool ips ip 443

low_of : ℤ → ℕ
low_of min = if eqb (pos_part min) 0 then default_client_port else pos_part min

low_of-IsLow : (min : ℤ) → IsLow min (low_of min)
unfolding low_of
low_of-IsLow min = elim (Bool-cases (eqb (pos_part min) 0)) [
  | inl unset ↦ rw unset (inr (ground arith, refl))
  | inr given ↦ rw given (inl (ground arith, refl))
]

IsLow-unique : (min : ℤ) (lo : ℕ) → IsLow min lo → lo ≡ low_of min
unfolding low_of
IsLow-unique min lo h = ground arith

rand_port-low_of :
    (word : ℕ) (min max : ℤ)
    → rand_port word min max ≡ (
        if leb (pos_part max) (low_of min)
        then low_of min
        else low_of min + word % (pos_part max - low_of min + 1))
unfolding rand_port low_of
rand_port-low_of word min max = refl

mod_below : (word n : ℕ) → word % (n + 1) ≤ n
mod_below word n = grind arith

-- A random port lies in the range.
pub rand_port-InRange : (word : ℕ) (min max : ℤ) → InRange min max (rand_port word min max)
rand_port-InRange word min max = record {
  lo = low_of min;
  is_low = low_of-IsLow min;
  fits = rw rand_port-low_of (elim (Bool-cases (leb (pos_part max) (low_of min))) [
    | inl single ↦ rw single (inr (ground arith, refl))
    | inr wide ↦ rw wide (
        inl (ground arith, omega arith, ground (arith, mod_below word (pos_part max - low_of min))))
  ]);
}

-- Every port of the range is drawn by some word.
pub rand_port_onto :
    (min max : ℤ) (port : ℕ) → InRange min max port → (word : ℕ) × (rand_port word min max ≡ port)
rand_port_onto min max port r = (
  port - low_of min,
  rw rand_port-low_of (
      ground (
        arith,
        IsLow-unique min r.lo r.is_low,
        mod-eq_of_lt {n = port - low_of min} {m = pos_part max - low_of min + 1},
      )),
)

not_nil : (s : Text) → not (s == []) ≡ true → s ≢ []
not_nil s h e = ground (arith, eq_iff s [])

is_given : (s : Text) → s ≢ [] → not (s == []) ≡ true
is_given s h = elim (Bool-cases (s == [])) [ inl e ↦ absurd (h ((eq_iff s []).0 e)) | inr e ↦ rw e ]

-- A pool of which no entry has an address.
no_address :
    (pool : List EndpointPool)
    → usable_pool pool ≡ []
    → (ep : EndpointPool) → Memᴰ ep pool
    → ep.ip ≡ []
no_address pool e ep m = elim (Bool-cases (ep.ip == [])) [
  | inl same ↦ (eq_iff ep.ip []).0 same
  | inr given ↦
      let kept : Memᴰ ep (usable_pool pool) =
        mem-keep_if (λ (p : EndpointPool). not (p.ip == [])) m (rw given refl) in
      elim (rw e at kept) [ ]
]

no_usable :
    (pool : List EndpointPool)
    → ((ep : EndpointPool) → Memᴰ ep pool → ep.ip ≡ [])
    → usable_pool pool ≡ []
no_usable [] h = refl
no_usable (ep ∷ pool) h = rw (h ep (head refl), eq_refl []) (no_usable pool (λ p m. h p (tail m)))

module _ {ℓ} {A : Type ℓ} where
  mod_length : (word : ℕ) (x : A) (xs : List A) → word % length (x ∷ xs) < length (x ∷ xs)
  mod_length word x xs = mod-lt word (omega arith)

  -- A pick from a list that is not empty is one of its members, without a panic.
  pick-mem :
      (word : ℕ) (x : A) (xs : List A) → (y : A) × (pick word (x ∷ xs) ≡ ok y) × Memᴰ y (x ∷ xs)
  unfolding pick
  pick-mem word x xs =
      let (y, e) = get_elem?-lt (x ∷ xs) (word % length (x ∷ xs)) (mod_length word x xs) in
      (y, rw (e, pick), mem_of_get_elem? (x ∷ xs) (word % length (x ∷ xs)) y e)

  -- Every member is picked by some word.
  pick_onto : (xs : List A) (y : A) → Memᴰ y xs → (word : ℕ) × (pick word xs ≡ ok y)
  unfolding pick
  pick_onto xs y m =
      let (i, lt, e) = get_elem?_of_mem m in (i, rw (mod-eq_of_lt lt, pick) (rw (e, pick)))

-- An address that the node offers is what the pick returned.
abbrev pub IsPicked : Words → List EndpointPool → List Text → Type 0
IsPicked w pool ips =
    (host : Text) × (port : ℕ) × (pick_endpoint w pool ips ≡ ok (join_host_port host (itoa port)))
    × Offered pool ips host port

-- There is nothing to dial, and the pick says so.
abbrev pub NothingOffered : Words → List EndpointPool → List Text → Type 0
NothingOffered w pool ips =
    (usable_pool pool ≡ []) × (usable_ips ips ≡ []) × (pick_endpoint w pool ips ≡ err no_endpoint)

module _ (w : Words) where
  from_pool :
      (pool : List EndpointPool) (ips : List Text) (ep : EndpointPool) (rest : List EndpointPool)
      → usable_pool pool ≡ ep ∷ rest
      → IsPicked w pool ips
  unfolding pick_endpoint
  from_pool pool ips ep rest e =
      let (c, picked, m) = pick-mem w.entry ep rest in
      let (m', given) = mem_of_keep_if (λ p. not (p.ip == [])) pool c (rw e m) in
      let port = rand_port w.port c.port_min c.port_max in
      (
        c.ip,
        port,
        rw e (rw picked),
        pooled c port m' (not_nil c.ip given) (rand_port-InRange w.port c.port_min c.port_max),
      )

  from_ips :
      (pool : List EndpointPool) (ips : List Text) (ip : Text) (rest : List Text)
      → usable_pool pool ≡ []
      → usable_ips ips ≡ ip ∷ rest
      → IsPicked w pool ips
  unfolding pick_endpoint
  from_ips pool ips ip rest none_pooled e =
      let (c, picked, m) = pick-mem w.entry ip rest in
      let (m', given) = mem_of_keep_if (λ s. not (s == [])) ips c (rw e m) in
      (
        c,
        443,
        rw (none_pooled, e) (rw picked),
        flat c (no_address pool none_pooled) m' (not_nil c given),
      )

  pick_cases :
      (pool : List EndpointPool) (ips : List Text) (us : List EndpointPool) (vs : List Text)
      → usable_pool pool ≡ us
      → usable_ips ips ≡ vs
      → IsPicked w pool ips ⊎ NothingOffered w pool ips
  pick_cases pool ips (ep ∷ rest) vs e f = inl (from_pool pool ips ep rest e)
  pick_cases pool ips [] (ip ∷ rest) e f = inl (from_ips pool ips ip rest e f)
  pick_cases pool ips [] [] e f = inr (e, f, unfold pick_endpoint in rw (e, f))

  -- Whatever the random words, a pick returns the address of a host and a port that the node offers,
  -- or finds neither a pool entry nor an address that is not empty and returns its one error; it
  -- never panics.
  pub pick_endpoint-Offered :
      (pool : List EndpointPool) (ips : List Text) → IsPicked w pool ips ⊎ NothingOffered w pool ips
  pick_endpoint-Offered pool ips = pick_cases pool ips (usable_pool pool) (usable_ips ips) refl refl

pick_from_pool :
    (pool : List EndpointPool) (ips : List Text) (w : Words) (ep : EndpointPool)
    → pick w.entry pool ≡ ok ep
    → Memᴰ ep pool
    → pick_from w pool ips
      ≡ ok (join_host_port ep.ip (itoa (rand_port w.port ep.port_min ep.port_max)))
unfolding pick_from
pick_from_pool [] ips w ep h m = elim m [ ]
pick_from_pool (x ∷ xs) ips w ep h m = rw h

pick_from_ips :
    (ips : List Text) (w : Words) (ip : Text)
    → pick w.entry ips ≡ ok ip
    → Memᴰ ip ips
    → pick_from w [] ips ≡ ok (join_host_port ip (itoa default_client_port))
unfolding pick_from
pick_from_ips [] w ip h m = elim m [ ]
pick_from_ips (x ∷ xs) w ip h m = rw h

-- Every host and port that a node offers is picked by some pair of random words, so that the entry
-- point can vary over all of them.
pub pick_endpoint_onto :
    (pool : List EndpointPool) (ips : List Text) {host : Text} {port : ℕ}
    → Offered pool ips host port
    → (w : Words) × (pick_endpoint w pool ips ≡ ok (join_host_port host (itoa port)))
unfolding pick_endpoint
pick_endpoint_onto pool ips (pooled ep port m given r) =
    let m' = mem-keep_if (λ (p : EndpointPool). not (p.ip == [])) m (is_given ep.ip given) in
    let (i, picked) = pick_onto (usable_pool pool) ep m' in
    let (j, drawn) = rand_port_onto ep.port_min ep.port_max port r in
    let w : Words = record { entry = i; port = j } in
    (w, rw (pick_from_pool (usable_pool pool) (usable_ips ips) w ep picked m') (rw drawn))
pick_endpoint_onto pool ips (flat ip no_ip m given) =
    let none_pooled = no_usable pool no_ip in
    let m' = mem-keep_if (λ (s : Text). not (s == [])) m (is_given ip given) in
    let (i, picked) = pick_onto (usable_ips ips) ip m' in
    let w : Words = record { entry = i; port = 0 } in
    (w, rw none_pooled (rw (pick_from_ips (usable_ips ips) w ip picked m')))
