-- ===== src/Profile/Store/Listing.antt =====
-- What List of go/profile/store.go returns.
use mathlib.Core.List.{Perm}
use mathlib.Core.List.Perm
use caravel.Prelude.{
  ◌≡◌, refl, sym, ap, ◌∙◌, true, false, inl, inr, List, [], ◌∷◌, ◌++◌, arith, Bool-cases,
  Result-cases, map, keep_if, ok, err, >>=-eq-ok, reject_if-eq-ok, as_err, as_err-eq-ok,
  ok-injective, not, list_store, not_pharos,
}
use caravel.Prelude.Text.{Text, bytes, ◌==◌, eq_iff, has_suffix}
use caravel.Prelude.TextLaws.{trim_suffix-restore}
use caravel.Disk
use caravel.Disk.{Disk, Read, found, missing, failed}
use caravel.Profile.Parse.{header}
use caravel.Profile.Store.{
  Entry, bad_pattern, unlistable, globbed, list, text_lt, insert_entry, sort_entries, enc_of,
  entry_for,
}
use caravel.Profile.Types.{ProfileJson, Envelope, extension}

-- The names of a listing are in order.
abbrev IsSortedFrom : Text → List Entry → Type 0
IsSortedFrom n [] = Unit {0}
IsSortedFrom n (e ∷ es) = (text_lt e.name n ≡ false) × IsSortedFrom e.name es

abbrev pub IsSorted : List Entry → Type 0
IsSorted [] = Unit {0}
IsSorted (e ∷ es) = IsSortedFrom e.name es

text_lt_asym : (s t : Text) → text_lt s t ≡ true → text_lt t s ≡ false
unfolding text_lt
text_lt_asym s [] h = cc
text_lt_asym [] (b ∷ t) h = refl
text_lt_asym (a ∷ s) (b ∷ t) h = ground (arith, text_lt_asym s t)

insert_entry-IsSortedFrom :
    (n : Text) (e : Entry) (es : List Entry)
    → text_lt e.name n ≡ false
    → IsSortedFrom n es
    → IsSortedFrom n (insert_entry e es)
unfolding insert_entry
insert_entry-IsSortedFrom n e [] h s = (h, tt)
insert_entry-IsSortedFrom n e (x ∷ xs) h (first, s) = elim (Bool-cases (text_lt x.name e.name)) [
  | inl lt ↦ rw lt (first, insert_entry-IsSortedFrom x.name e xs (text_lt_asym x.name e.name lt) s)
  | inr ge ↦ rw ge (h, (ge, s))
]

insert_entry-IsSorted : (e : Entry) (es : List Entry) → IsSorted es → IsSorted (insert_entry e es)
unfolding insert_entry
insert_entry-IsSorted e [] s = tt
insert_entry-IsSorted e (x ∷ xs) s = elim (Bool-cases (text_lt x.name e.name)) [
  | inl lt ↦ rw lt (insert_entry-IsSortedFrom x.name e xs (text_lt_asym x.name e.name lt) s)
  | inr ge ↦ rw ge (ge, s)
]

sort_entries-IsSorted : (es : List Entry) → IsSorted (sort_entries es)
unfolding sort_entries
sort_entries-IsSorted [] = tt
sort_entries-IsSorted (e ∷ es) =
    insert_entry-IsSorted e (sort_entries es) (sort_entries-IsSorted es)

insert_entry-perm : (e : Entry) (es : List Entry) → Perm (insert_entry e es) (e ∷ es)
unfolding insert_entry
insert_entry-perm e [] = Perm.refl (e ∷ [])
insert_entry-perm e (x ∷ xs) = elim (Bool-cases (text_lt x.name e.name)) [
  | inl lt ↦ rw lt (Perm.trans (Perm.cons x (insert_entry-perm e xs)) (Perm.swap e x xs))
  | inr ge ↦ rw ge (Perm.refl (e ∷ x ∷ xs))
]

sort_entries-perm : (es : List Entry) → Perm (sort_entries es) es
unfolding sort_entries
sort_entries-perm [] = Perm.refl []
sort_entries-perm (e ∷ es) =
    Perm.trans (insert_entry-perm e (sort_entries es)) (Perm.cons e (sort_entries-perm es))

module _ (J : ProfileJson) (d : Disk) where
  -- What is read in a file is an envelope of the format.
  abbrev pub IsEnvelope : Text → Text → Envelope → Type 0
  IsEnvelope file raw env =
      (Disk.read d file ≡ found raw)
      × (J.envelope.unmarshal raw ≡ ok env)
      × (env.fmt ≡ bytes "pharos-profile")

  -- The encryption mode that is shown for a file: that of its envelope, or "?".
  pub data HasMode (file : Text) : Text → Type 0 where
    of_envelope : (raw : Text) (env : Envelope) → IsEnvelope file raw env → HasMode file env.enc
    unknown :
        ((raw : Text) (env : Envelope) → IsEnvelope file raw env → ⊥) → HasMode file (bytes "?")

  -- The entries of a directory's files, in their order: one for each file with the extension.
  pub data Entries : List Text → List Entry → Type 0 where
    no_files : Entries [] []
    profile_file :
        (file : Text) (e : Entry) (files : List Text) (es : List Entry)
        → e.name ++ bytes ".pharos" ≡ file
        → HasMode file e.enc
        → Entries files es
        → Entries (file ∷ files) (e ∷ es)
    other_file :
        (file : Text) (files : List Text) (es : List Entry)
        → has_suffix file (bytes ".pharos") ≡ false
        → Entries files es
        → Entries (file ∷ files) es

  -- A listing of the directory: the entries of its files, by name.
  abbrev pub IsListing : List Entry → Type 0
  IsListing out = IsSorted out × ((es : List Entry) × Perm out es × Entries (Disk.names d) es)

  header-eq-ok :
      (raw : Text) (env : Envelope)
      → header J raw ≡ ok env
      → (J.envelope.unmarshal raw ≡ ok env) × (env.fmt ≡ bytes "pharos-profile")
  unfolding header
  header-eq-ok raw env h =
      let (e, e1, h1) = >>=-eq-ok (as_err (J.envelope.unmarshal raw) not_pharos) _ h in
      let (same, h2) = reject_if-eq-ok (not (e.fmt == bytes "pharos-profile")) not_pharos _ h1 in
      let eq = ok-injective e env h2 in
      (
        as_err-eq-ok _ not_pharos e1 ∙ ap ok eq,
        ap (λ (x : Envelope). x.fmt) (sym eq)
            ∙ (eq_iff e.fmt (bytes "pharos-profile")).0 (ground arith),
      )

  envelope-header :
      (raw : Text) (env : Envelope)
      → J.envelope.unmarshal raw ≡ ok env
      → env.fmt ≡ bytes "pharos-profile"
      → header J raw ≡ ok env
  unfolding header
  envelope-header raw env e f =
      rw (e, header) (rw ((eq_iff env.fmt (bytes "pharos-profile")).1 f) refl)

  found-injective : (a b : Text) → found a ≡ found b → a ≡ b
  found-injective a b h = cc

  no_envelope :
      (file raw : Text)
      → Disk.read d file ≡ found raw
      → ((env : Envelope) → header J raw ≡ ok env → ⊥)
      → (other : Text) (env : Envelope) → IsEnvelope file other env
      → ⊥
  no_envelope file raw h n other env (r, u, f) =
      let same : raw ≡ other = found-injective raw other (sym h ∙ r) in
      n env (envelope-header raw env (ap (λ (t : Text). J.envelope.unmarshal t) same ∙ u) f)

  read-HasMode : (file : Text) (r : Read) → Disk.read d file ≡ r → HasMode file (enc_of J d file)
  unfolding enc_of
  read-HasMode file (found raw) h = elim (Result-cases (header J raw)) [
    | inl (env, e) ↦
        rw (h, enc_of)
          (rw (e, enc_of)
            (of_envelope raw env (h, (header-eq-ok raw env e).0, (header-eq-ok raw env e).1)))
    | inr (inl (x, e)) ↦
        rw (h, enc_of) (rw (e, enc_of) (unknown (no_envelope file raw h (λ env f. cc))))
    | inr (inr e) ↦ rw (h, enc_of) (rw (e, enc_of) (unknown (no_envelope file raw h (λ env f. cc))))
  ]
  read-HasMode file missing h = rw (h, enc_of) (unknown (λ raw env (r, _, _). cc))
  read-HasMode file failed h = rw (h, enc_of) (unknown (λ raw env (r, _, _). cc))

  all-Entries :
      (files : List Text)
      → Entries files (map (entry_for J d) (keep_if (λ f. has_suffix f extension) files))
  unfolding entry_for
  all-Entries [] = no_files
  all-Entries (f ∷ files) = elim (Bool-cases (has_suffix f extension)) [
    | inl e ↦ rw e (
        profile_file f (entry_for J d f) files _ (trim_suffix-restore f extension e)
          (read-HasMode f (Disk.read d f) refl) (all-Entries files))
    | inr e ↦ rw e (other_file f files _ e (all-Entries files))
  ]

  -- List fails for a malformed pattern, is empty for a directory that cannot be listed, and otherwise
  -- has exactly one entry for each file with the extension: its name without the extension and the
  -- encryption mode of the envelope in it or, where it cannot be read or holds no envelope of the
  -- format, "?". The entries are in the order of their names.
  pub list-IsListing :
      (list J bad_pattern d ≡ err list_store)
      × (list J unlistable d ≡ ok [])
      × ((out : List Entry) × (list J globbed d ≡ ok out) × IsListing out)
  unfolding list
  list-IsListing =
      let es = map (entry_for J d) (keep_if (λ f. has_suffix f extension) (Disk.names d)) in
      (
        refl,
        refl,
        (
          sort_entries es,
          refl,
          (sort_entries-IsSorted es, (es, sort_entries-perm es, all-Entries (Disk.names d))),
        ),
      )
