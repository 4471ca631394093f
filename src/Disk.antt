-- ===== src/Disk.antt =====
-- The directory of the profile store and what package os does with its files. The key of a file is
-- its name in that directory; a name with a slash in it would be a file elsewhere.
pub mod Laws
use caravel.Prelude.{
  Bool, true, false, Option, none, some, List, [], ◌∷◌, map, is_some, if◌then◌else◌,
}
use caravel.Prelude.Text.{Text, ◌==◌}

-- Files in no order, the newest entry of a name first. The system may refuse to write or remove
-- some names and to read some files.
pub record Disk : Type 0 where
  pub files : List (Text × Text)
  pub is_locked : Text → Bool
  pub is_unreadable : Text → Bool

lookup : Text → List (Text × Text) → Option Text
lookup k [] = none
lookup k ((j, v) ∷ m) = if j == k then some v else lookup k m

erase : Text → List (Text × Text) → List (Text × Text)
erase k [] = []
erase k ((j, v) ∷ m) = let rest = erase k m in if j == k then rest else (j, v) ∷ rest

-- The content of a file, `none` where there is no such file.
unfoldable pub content : Disk → Text → Option Text
unfolding lookup
content d k = lookup k d.files

-- What os.ReadFile returns.
pub data Read : Type 0 where
  found : Text → Read
  missing : Read
  failed : Read

unfoldable pub read : Disk → Text → Read
unfolding content
read d k = elim (content d k) [
  | none ↦ missing
  | some v ↦ if d.is_unreadable k then failed else found v
]

-- os.WriteFile: the disk after it and whether it succeeded.
unfoldable pub write : Disk → Text → Text → Disk × Bool
unfolding erase
write d k v =
    if d.is_locked k then (d, false) else (record d { files = (k, v) ∷ erase k d.files }, true)

-- os.Remove
pub data Removal : Type 0 where
  removed : Removal
  absent : Removal
  refused : Removal

unfoldable pub remove : Disk → Text → Disk × Removal
unfolding erase content
remove d k = elim (content d k) [
  | none ↦ (d, absent)
  | some _ ↦ if d.is_locked k then (d, refused) else (record d { files = erase k d.files }, removed)
]

-- os.Stat succeeds
unfoldable pub exists : Disk → Text → Bool
unfolding content
exists d k = is_some (content d k)

-- The names of a directory listing.
unfoldable pub names : Disk → List Text
names d = map (λ f. f.0) d.files
