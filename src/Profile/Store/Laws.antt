-- ===== src/Profile/Store/Laws.antt =====
-- The store's operations read back what they wrote, and stay within its directory.
use mathlib.Core.List.{reverse, reverse-reverse}
use caravel.Prelude.{
  ◌≡◌, ◌≢◌, refl, ap, ◌∙◌, eqb_iff, true, false, [], ◌∷◌, arith, if◌then◌else◌, any_of-append, ok,
  err, Error, profile_not_found,
}
use caravel.Prelude.Text.{Text, ◌==◌, has_byte, trim_suffix, has_suffix, before_byte}
use caravel.Prelude.TextLaws.{
  has_byte-reverse, has_byte-before_byte, has_byte-trim_suffix, has_suffix-append,
}
use caravel.Disk
use caravel.Disk.{Disk, content, found, missing}
use caravel.Disk.Laws.{read-write, read-remove}
use caravel.Profile.Parse.{header}
use caravel.Profile.Store.{drop_slashes, base, path, import, raw_of, remove}
use caravel.Profile.Types.{ProfileJson, extension}

base-no_slash : (name : Text) → has_byte b'/' (base name) ≡ false
unfolding base
base-no_slash [] = refl
base-no_slash (c ∷ s) =
    rw (has_byte-reverse b'/') (has_byte-before_byte b'/' (drop_slashes (reverse (c ∷ s))))

drop_slashes-plain : (s : Text) → has_byte b'/' s ≡ false → drop_slashes s ≡ s
unfolding drop_slashes
drop_slashes-plain [] h = refl
drop_slashes-plain (c ∷ s) h = ground (arith, eqb_iff b'/' c)

before_byte-plain : (s : Text) → has_byte b'/' s ≡ false → before_byte b'/' s ≡ s
unfolding before_byte
before_byte-plain [] h = refl
before_byte-plain (c ∷ s) h = ground (arith, before_byte-plain s, eqb_iff b'/' c)

-- A name that is not empty and has no slash is its own base.
pub base-plain : (s : Text) → has_byte b'/' s ≡ false → (s == []) ≡ false → base s ≡ s
unfolding base ◌==◌
base-plain [] h n = cc
base-plain (c ∷ s) h n =
    let r : has_byte b'/' (reverse (c ∷ s)) ≡ false = has_byte-reverse b'/' (c ∷ s) ∙ h in
    ap (λ (t : Text). reverse (before_byte b'/' t)) (drop_slashes-plain (reverse (c ∷ s)) r)
    ∙ (ap reverse (before_byte-plain (reverse (c ∷ s)) r) ∙ reverse-reverse (c ∷ s))

-- Whatever name is asked for, also one with slashes and dots, the stored file lies in the store's own
-- directory and carries the extension.
pub path-in_store :
    (name : Text) → (has_byte b'/' (path name) ≡ false) × (has_suffix (path name) extension ≡ true)
unfolding path
path-in_store name = (
  rw any_of-append
      (ground (arith, has_byte-trim_suffix b'/' (base name) extension (base-no_slash name))),
  has_suffix-append (trim_suffix (base name) extension) extension,
)

module _ (J : ProfileJson) (name : Text) (raw : Text) (d : Disk) where
  pub import-eq-ok :
      (p : Text)
      → (import J name raw d).0 ≡ ok p
      → ((Disk.write d (path name) raw).1 ≡ true) × (p ≡ path name)
  unfolding import
  import-eq-ok p h = ground arith

  pub import-disk :
      (p : Text)
      → (import J name raw d).0 ≡ ok p
      → (import J name raw d).1 ≡ (Disk.write d (path name) raw).0
  unfolding import
  import-disk p h = ground arith

  -- After an import that succeeded, Raw returns the stored bytes under every name that leads to the
  -- same file, unless the system refuses to read it, and under every other name what it returned
  -- before.
  pub raw_of-import :
      (p : Text) (other : Text)
      → (import J name raw d).0 ≡ ok p
      → d.is_unreadable p ≡ false
      → raw_of other (import J name raw d).1
        ≡ (if path name == path other then ok raw else raw_of other d)
  unfolding raw_of
  raw_of-import p other h readable =
      let (done, same) = import-eq-ok p h in
      rw (import-disk p h, raw_of)
        (rw (read-write d (path name) raw (path other) done, raw_of) (ground (arith, same)))

  -- A file that is no pharos-profile envelope is refused by Import, and the disk stays as it was.
  pub import-refused : (e : Error) → header J raw ≡ err e → import J name raw d ≡ (err e, d)
  unfolding import
  import-refused e h = rw (h, import)

remove-eq-ok :
    (name : Text) (d : Disk)
    → (remove name d).0 ≡ ok tt
    → ((remove name d).1 ≡ (Disk.remove d (path name)).0)
      × ((Disk.remove d (path name)).1 ≢ Disk.refused)
unfolding remove
remove-eq-ok name d h = ground arith

-- Remove deletes the file of its name and no other: afterwards Raw does not find the name, and finds
-- what it found before under each name of another file. Removing a missing profile succeeds.
pub raw_of-remove :
    (name other : Text) (d : Disk)
    → (remove name d).0 ≡ ok tt
    → raw_of other (remove name d).1
      ≡ (if path name == path other then err profile_not_found else raw_of other d)
unfolding raw_of
raw_of-remove name other d h =
    let (e, kept) = remove-eq-ok name d h in
    rw (e, raw_of) (rw (read-remove d (path name) (path other) kept, raw_of) (ground arith))
