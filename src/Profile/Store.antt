-- ===== src/Profile/Store.antt =====
-- go/profile/store.go: the profile store over its directory.
pub mod Laws
pub mod Listing
pub mod Refinement
use mathlib.Core.List.{reverse}
use caravel.Prelude.{
  ℕ, suc, zero, Bool, true, false, not, ◌&&◌, ◌||◌, Option, none, some, List, [], ◌∷◌, ◌++◌,
  keep_if, map, ltb, eqb, if◌then◌else◌, Result, ok, err, panic, ◌>>=◌, store_dir_required,
  create_store_dir, profile_not_found, list_store, write_profile, read_profile, remove_profile,
}
use caravel.Prelude.Text.{Text, bytes, ◌==◌, trim_suffix, has_suffix, has_byte, before_byte}
use caravel.Disk
use caravel.Disk.{Disk, found, missing, failed, removed, absent, refused}
use caravel.Profile.Parse.{header}
use caravel.Profile.Types.{ProfileJson, Envelope, extension}

-- The opened store: its directory, under which `Disk` has the files.
pub record Store : Type 0 where
  pub dir : Text

-- NewStore; the argument says whether os.MkdirAll succeeds.
unfoldable pub new_store : (Text → Bool) → Text → Result Store
new_store mkdir_all dir =
    if dir == []
    then err store_dir_required
    else if mkdir_all dir
    then ok (record { dir = dir })
    else err create_store_dir

-- (*Store).Dir
unfoldable pub store_dir : Store → Text
store_dir s = s.dir

drop_slashes : Text → Text
drop_slashes [] = []
drop_slashes (c ∷ s) = let rest = drop_slashes s in if eqb b'/' c then rest else c ∷ s

-- filepath.Base: the last element without trailing slashes, "." for the empty path. Of a path of
-- slashes alone it is "/", which Join takes off again: here the name is empty.
unfoldable pub base : Text → Text
unfolding drop_slashes before_byte
base [] = bytes "."
base (c ∷ s) = reverse (before_byte b'/' (drop_slashes (reverse (c ∷ s))))

-- (*Store).path, as a name in the store's directory.
unfoldable pub path : Text → Text
path name = trim_suffix (base name) extension ++ extension

-- (*Store).Import. With the state of the disk it returns the stored name.
unfoldable pub import : ProfileJson → Text → Text → Disk → Result Text × Disk
import J name raw d = elim (header J raw) [
  | err e ↦ (err e, d)
  | panic ↦ (panic, d)
  | ok _ ↦
      let (d', done) = Disk.write d (path name) raw in
      if done then (ok (path name), d') else (err (write_profile (path name)), d')
]

-- (*Store).Raw
unfoldable pub raw_of : Text → Disk → Result Text
raw_of name d = elim (Disk.read d (path name)) [
  | found raw ↦ ok raw
  | missing ↦ err profile_not_found
  | failed ↦ err (read_profile name)
]

-- (*Store).Remove
unfoldable pub remove : Text → Disk → Result (Unit {0}) × Disk
remove name d =
    let (d', r) = Disk.remove d (path name) in
    elim r [
      | removed ↦ (ok tt, d')
      | absent ↦ (ok tt, d')
      | refused ↦ (err (remove_profile name), d')
    ]

-- Entry
pub record Entry : Type 0 where
  pub name : Text
  pub enc : Text

-- Go's `<` on strings.
unfoldable pub text_lt : Text → Text → Bool
text_lt s [] = false
text_lt [] (_ ∷ _) = true
text_lt (a ∷ s) (b ∷ t) = let rest = text_lt s t in if eqb a b then rest else ltb a b

insert_entry : Entry → List Entry → List Entry
insert_entry e [] = e ∷ []
insert_entry e (x ∷ xs) =
    let rest = insert_entry e xs in if text_lt x.name e.name then x ∷ rest else e ∷ (x ∷ xs)

-- sort.Slice by name; names of files in one directory differ, so any sort gives this order.
unfoldable pub sort_entries : List Entry → List Entry
unfolding insert_entry
sort_entries [] = []
sort_entries (e ∷ es) = insert_entry e (sort_entries es)

unfoldable enc_of : ProfileJson → Disk → Text → Text
enc_of J d file = elim (Disk.read d file) [
  | found raw ↦ elim (header J raw) [ ok h ↦ h.enc | _ ↦ bytes "?" ]
  | _ ↦ bytes "?"
]

-- One round of List's loop.
unfoldable pub entry_for : ProfileJson → Disk → Text → Entry
unfolding enc_of
entry_for J d file = record { name = trim_suffix file extension; enc = enc_of J d file }

-- What filepath.Glob makes of `*.pharos` in the store's directory: an error for a malformed pattern, which
-- the directory's own name can bring about; nothing for a directory that cannot be listed; its files.
pub data Globbed : Type 0 where
  bad_pattern : Globbed
  unlistable : Globbed
  globbed : Globbed

-- (*Store).List, on what the glob comes to.
unfoldable pub list : ProfileJson → Globbed → Disk → Result (List Entry)
unfolding sort_entries entry_for
list J bad_pattern d = err list_store
list J unlistable d = ok []
list J globbed d =
    ok (sort_entries (map (entry_for J d) (keep_if (λ f. has_suffix f extension) (Disk.names d))))
