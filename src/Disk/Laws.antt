-- ===== src/Disk/Laws.antt =====
-- Reading back after writes and removals, in `if` form.
use caravel.Prelude.{
  ◌≡◌, ◌≢◌, refl, Bool, true, false, not, none, some, List, [], ◌∷◌, arith, if◌then◌else◌, ◌&&◌,
  map, any_of, Bool-cases, inl, inr,
}
use caravel.Prelude.Text.{Text, ◌==◌, eq_iff}
use caravel.Disk.{
  Disk, lookup, erase, content, write, remove, read, names, found, missing, failed, refused,
}

lookup-erase :
    (k j : Text) (m : List (Text × Text))
    → lookup j (erase k m) ≡ (if k == j then none else lookup j m)
unfolding lookup erase
lookup-erase k j [] = ground arith
lookup-erase k j ((i, v) ∷ m) =
    ground (arith, lookup-erase k j m, eq_iff i k, eq_iff i j, eq_iff k j)

pub content-write :
    (d : Disk) (k v j : Text)
    → content (write d k v).0 j ≡ (if not (d.is_locked k) && k == j then some v else content d j)
unfolding content write
content-write d k v j = ground (arith, lookup-erase k j d.files, eq_iff k j)

pub content-remove :
    (d : Disk) (k j : Text)
    → content (remove d k).0 j ≡ (if not (d.is_locked k) && k == j then none else content d j)
unfolding content remove
content-remove d k j = ground (arith, lookup-erase k j d.files, eq_iff k j)

pub read-write :
    (d : Disk) (k v j : Text)
    → (write d k v).1 ≡ true
    → read (write d k v).0 j
      ≡ (if k == j then (if d.is_unreadable k then failed else found v) else read d j)
unfolding read write content
read-write d k v j h = ground (arith, lookup-erase k j d.files, eq_iff k j)

-- A write to another file, whether or not the system lets it.
pub read-write_other :
    (d : Disk) (k v j : Text) → (k == j) ≡ false → read (write d k v).0 j ≡ read d j
unfolding read write content
read-write_other d k v j h = ground (arith, lookup-erase k j d.files, eq_iff k j)

pub read-remove :
    (d : Disk) (k j : Text)
    → (remove d k).1 ≢ refused
    → read (remove d k).0 j ≡ (if k == j then missing else read d j)
unfolding read remove content
read-remove d k j h = ground (arith, lookup-erase k j d.files, eq_iff k j)

lookup-names :
    (files : List (Text × Text)) (j v : Text) (p : Text → Bool)
    → lookup j files ≡ some v
    → p j ≡ true
    → any_of p (map (λ f. f.0) files) ≡ true
unfolding lookup
lookup-names [] j v p h t = cc
lookup-names ((k, w) ∷ files) j v p h t = elim (Bool-cases (k == j)) [
  | inl e ↦ rw ((eq_iff k j).0 e) (rw t refl)
  | inr e ↦ rw (lookup-names files j v p (rw e at h) t) (ground arith)
]

names-lookup :
    (files : List (Text × Text)) (p : Text → Bool)
    → any_of p (map (λ f. f.0) files) ≡ true
    → (j : Text) × (v : Text) × (lookup j files ≡ some v) × (p j ≡ true)
unfolding lookup
names-lookup [] p h = cc
names-lookup ((k, w) ∷ files) p h = elim (Bool-cases (p k)) [
  | inl e ↦ (k, w, rw ((eq_iff k k).1 refl) refl, e)
  | inr e ↦
      let (j, v, found_at, t) = names-lookup files p (rw e at h) in
      elim (Bool-cases (k == j)) [
        | inl same ↦ (j, w, rw same refl, t)
        | inr other ↦ (j, v, rw other found_at, t)
      ]
]

-- The listing has the files that there are, and no others.
pub any_of-names :
    (d : Disk) (j v : Text) (p : Text → Bool)
    → content d j ≡ some v
    → p j ≡ true
    → any_of p (names d) ≡ true
unfolding content names
any_of-names d j v p h t = lookup-names d.files j v p h t

pub names-content :
    (d : Disk) (p : Text → Bool)
    → any_of p (names d) ≡ true
    → (j : Text) × (v : Text) × (content d j ≡ some v) × (p j ≡ true)
unfolding content names
names-content d p h = names-lookup d.files p h
