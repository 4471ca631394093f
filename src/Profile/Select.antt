-- ===== src/Profile/Select.antt =====
-- Which profile of a bundle and which node of a profile a reference picks:
-- Profile.Select, SelectByProtocol and Names, ClientProfile.EntryNodeID and Node.
pub mod Laws
use caravel.Prelude.{
  Bool, true, false, not, ◌||◌, Option, none, some, List, [], ◌∷◌, map, find_first, if◌then◌else◌,
  Result, ok, err, or_err, no_profile, no_node,
}
use caravel.Prelude.Text.{Text, bytes, ◌==◌}
use caravel.Profile.Types.{Profile, ClientProfile, Node, PathView, PathHop}

-- The test of Select's loop.
abbrev pub refers_to : Text → ClientProfile → Bool
refers_to ref p = p.id == ref || p.name == ref

select_from : List ClientProfile → Text → Result ClientProfile
select_from [] ref = err no_profile
select_from (p ∷ ps) ref =
    if ref == [] then ok p else or_err (find_first (refers_to ref) (p ∷ ps)) no_profile

-- (*Profile).Select
unfoldable pub select : Profile → Text → Result ClientProfile
unfolding select_from
select p ref = select_from p.profiles ref

-- (*Profile).SelectByProtocol
unfoldable pub select_by_protocol : Profile → Text → Result ClientProfile
select_by_protocol p proto = or_err (find_first (λ c. c.protocol == proto) p.profiles) no_profile

-- (*Profile).Names
unfoldable pub names : Profile → List Text
names p = map (λ c. c.name) p.profiles

abbrev is_entry : PathHop → Bool
is_entry h = h.role == bytes "entry"

abbrev first_hop_id : List PathHop → Text
first_hop_id [] = []
first_hop_id (h ∷ _) = h.id

-- (*ClientProfile).EntryNodeID
unfoldable pub entry_node_id : ClientProfile → Text
entry_node_id cp = elim cp.path [
  | none ↦ []
  | some path ↦ elim (find_first is_entry path.hops) [
    | some h ↦ h.id
    | none ↦ first_hop_id path.hops
  ]
]

-- The test of Node's second loop.
abbrev pub names_node : Text → Node → Bool
names_node id n = id == [] || (n.id == id || n.name == id)

-- The first loop of Node: the entry hop's node, looked for when no id is given.
unfoldable pub entry_node : ClientProfile → Text → Option Node
unfolding entry_node_id
entry_node cp id =
    let entry = entry_node_id cp in
    if id == []
    then if entry == [] then none else find_first (λ n. n.id == entry) cp.nodes
    else none

-- (*ClientProfile).Node
unfoldable pub node : ClientProfile → Text → Result Node
unfolding entry_node
node cp id = elim (entry_node cp id) [
  | some n ↦ ok n
  | none ↦ or_err (find_first (names_node id) cp.nodes) no_node
]
