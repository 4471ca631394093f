-- ===== src/Profile/Select/Laws.antt =====
-- What a reference picks, by the order of the bundle.
use mathlib.Core.List.{Memᴰ}
use mathlib.Core.List.Memᴰ.{head, tail}
use caravel.Prelude.{
  ◌≡◌, ◌≢◌, refl, ◌⊎◌, inl, inr, true, false, Bool, none, some, List, [], ◌∷◌, arith, Option-cases,
  find_first, ok, err, or_err, no_profile, no_node,
}
use caravel.Prelude.Members.{find_first-mem, find_first-none}
use caravel.Prelude.Text.{Text, ◌==◌, eq_iff, eq_refl}
use caravel.Profile.Types.{Profile, ClientProfile, Node}
use caravel.Profile.Select.{refers_to, select_from, select, entry_node_id, names_node, node}

-- A profile that a reference names: by its id or its name.
abbrev pub IsReferred : Text → ClientProfile → Type 0
IsReferred ref p = (p.id ≡ ref) ⊎ (p.name ≡ ref)

refers_to-true : (ref : Text) (p : ClientProfile) → refers_to ref p ≡ true → IsReferred ref p
refers_to-true ref p h = ground (arith, eq_iff p.id ref, eq_iff p.name ref)

refers_to-false : (ref : Text) (p : ClientProfile) → refers_to ref p ≡ false → ¬ IsReferred ref p
refers_to-false ref p h r = ground (arith, eq_iff p.id ref, eq_iff p.name ref)

-- What Select may do with a reference that is not empty.
abbrev pub SelectsBy : Profile → Text → Type 0
SelectsBy p ref =
    ((c : ClientProfile) × (select p ref ≡ ok c) × Memᴰ c p.profiles × IsReferred ref c)
    ⊎ (select p ref ≡ err no_profile)
      × ((c : ClientProfile) → Memᴰ c p.profiles → ¬ IsReferred ref c)

select_from-search :
    (cs : List ClientProfile) (ref : Text)
    → ref ≢ []
    → select_from cs ref ≡ or_err (find_first (refers_to ref) cs) no_profile
unfolding select_from
select_from-search [] ref h = refl
select_from-search (c ∷ cs) ref h =
    let given : (ref == []) ≡ false = ground (arith, eq_iff ref []) in rw given

-- A reference that is not empty selects a profile of the bundle with that id or name, and is refused
-- exactly where the bundle has none.
pub select-SelectsBy : (p : Profile) (ref : Text) → ref ≢ [] → SelectsBy p ref
unfolding select
select-SelectsBy p ref h =
    rw (select_from-search p.profiles ref h)
      (elim (Option-cases (find_first (refers_to ref) p.profiles)) [
        | inl e ↦
            rw e (inr (refl, λ c m. refers_to-false ref c (find_first-none (refers_to ref) m e)))
        | inr (c, e) ↦
            let (m, t) = find_first-mem (refers_to ref) p.profiles c e in
            rw e (inl (c, refl, m, refers_to-true ref c t))
      ])

-- The search for the entry hop's node, and the search for a given id.
abbrev is_at : Text → Node → Bool
is_at id n = n.id == id

node-at_entry :
    (cp : ClientProfile) (n : Node)
    → entry_node_id cp ≢ []
    → find_first (is_at (entry_node_id cp)) cp.nodes ≡ some n
    → node cp [] ≡ ok n
unfolding node
node-at_entry cp n h f = ground (arith, f, eq_iff (entry_node_id cp) [], eq_refl [])

node-first :
    (cp : ClientProfile) (n : Node) (rest : List Node)
    → cp.nodes ≡ n ∷ rest
    → find_first (is_at (entry_node_id cp)) cp.nodes ≡ none
    → node cp [] ≡ ok n
unfolding node
node-first cp n rest e f = ground (arith, e, f, eq_iff (entry_node_id cp) [], eq_refl [])

node-search :
    (cp : ClientProfile) (id : Text)
    → id ≢ []
    → node cp id ≡ or_err (find_first (names_node id) cp.nodes) no_node
unfolding node
node-search cp id h = ground (arith, eq_iff id [])

find_first-none_of {ℓ} :
    {A : Type ℓ} (p : A → Bool) (xs : List A)
    → ((x : A) → Memᴰ x xs → p x ≡ false)
    → find_first p xs ≡ none
find_first-none_of p [] h = refl
find_first-none_of p (x ∷ xs) h =
    rw (h x (head refl)) (find_first-none_of p xs (λ y m. h y (tail m)))

-- With no node asked for, a cascade profile that has its entry hop's node returns a node with the
-- entry hop's id.
pub node-entry :
    (cp : ClientProfile) (n : Node)
    → entry_node_id cp ≢ []
    → Memᴰ n cp.nodes
    → n.id ≡ entry_node_id cp
    → (m : Node) × (node cp [] ≡ ok m) × Memᴰ m cp.nodes × (m.id ≡ entry_node_id cp)
node-entry cp n has_entry m e =
    elim (Option-cases (find_first (is_at (entry_node_id cp)) cp.nodes)) [
      | inl f ↦
          let miss = find_first-none (is_at (entry_node_id cp)) m f in
          absurd (ground (arith, miss, eq_iff n.id (entry_node_id cp)))
      | inr (k, f) ↦
          let (m', t) = find_first-mem (is_at (entry_node_id cp)) cp.nodes k f in
          (k, node-at_entry cp k has_entry f, m', (eq_iff k.id (entry_node_id cp)).0 t)
    ]

-- With no node asked for, a profile none of whose nodes is the entry hop is not refused: its first
-- node is returned, which is another one than the entry hop.
pub node-entry_missing :
    (cp : ClientProfile) (n : Node) (rest : List Node)
    → cp.nodes ≡ n ∷ rest
    → ((m : Node) → Memᴰ m cp.nodes → m.id ≢ entry_node_id cp)
    → (node cp [] ≡ ok n) × (n.id ≢ entry_node_id cp)
node-entry_missing cp n rest e away = (
  node-first cp n rest e (
      find_first-none_of (is_at (entry_node_id cp)) cp.nodes
        (λ m mem. let other = away m mem in ground (arith, eq_iff m.id (entry_node_id cp)))),
  away n (rw e (head refl)),
)

-- A node that an id asks for: by its id or its name.
abbrev pub IsNamed : Text → Node → Type 0
IsNamed id n = (n.id ≡ id) ⊎ (n.name ≡ id)

names_node-true : (id : Text) (n : Node) → id ≢ [] → names_node id n ≡ true → IsNamed id n
names_node-true id n g h = ground (arith, eq_iff id [], eq_iff n.id id, eq_iff n.name id)

names_node-false : (id : Text) (n : Node) → names_node id n ≡ false → ¬ IsNamed id n
names_node-false id n h r = ground (arith, eq_iff n.id id, eq_iff n.name id)

-- What Node may do with an id that is not empty.
abbrev pub PicksNode : ClientProfile → Text → Type 0
PicksNode cp id =
    ((n : Node) × (node cp id ≡ ok n) × Memᴰ n cp.nodes × IsNamed id n)
    ⊎ (node cp id ≡ err no_node) × ((n : Node) → Memᴰ n cp.nodes → ¬ IsNamed id n)

-- An id that is not empty picks a node of the profile with that id or name, and is refused exactly
-- where the profile has none.
pub node-PicksNode : (cp : ClientProfile) (id : Text) → id ≢ [] → PicksNode cp id
node-PicksNode cp id h =
    rw (node-search cp id h) (elim (Option-cases (find_first (names_node id) cp.nodes)) [
      | inl e ↦
          rw e (inr (refl, λ n m. names_node-false id n (find_first-none (names_node id) m e)))
      | inr (n, e) ↦
          let (m, t) = find_first-mem (names_node id) cp.nodes n e in
          rw e (inl (n, refl, m, names_node-true id n h t))
    ])
