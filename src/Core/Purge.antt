-- ===== src/Core/Purge.antt =====
-- Which files purgeCloud removes.
use caravel.Prelude.{
  suc, ◌≡◌, refl, ap, ◌∙◌, Bool, true, false, not, ◌&&◌, none, List, [], ◌∷◌, ◌++◌, any_of, keep_if,
  length, arith, if◌then◌else◌, Bool-cases, inl, inr, Option-cases,
}
use caravel.Prelude.Text.{Text, ◌==◌, eq_iff, eq_refl, has_suffix, trim_suffix}
use caravel.Prelude.TextLaws.{trim_suffix-restore}
use caravel.Disk
use caravel.Disk.{Disk, content}
use caravel.Disk.Laws.{content-remove, any_of-names}
use caravel.Core.Sidecars.{synced_extension, sidecars, remove_all, purge_entries, purge_cloud}

is_locked-remove : (d : Disk) (k : Text) → (Disk.remove d k).0.is_locked ≡ d.is_locked
unfolding Disk.remove
is_locked-remove d k = ground arith

is_locked-remove_all : (ks : List Text) (d : Disk) → (remove_all ks d).is_locked ≡ d.is_locked
unfolding remove_all
is_locked-remove_all [] d = refl
is_locked-remove_all (k ∷ ks) d = is_locked-remove_all ks (Disk.remove d k).0 ∙ is_locked-remove d k

pub content-remove_all :
    (ks : List Text) (d : Disk) (j : Text)
    → content (remove_all ks d) j
      ≡ (if not (d.is_locked j) && any_of (λ k. k == j) ks then none else content d j)
unfolding remove_all
content-remove_all [] d j = ground arith
content-remove_all (k ∷ ks) d j =
    let ih = content-remove_all ks (Disk.remove d k).0 j in
    let one = content-remove d k j in
    let same = ap (λ (f : Text → Bool). f j) (is_locked-remove d k) in
    ground (arith, ih, one, same, eq_iff k j, d.is_locked k)

-- A directory entry that is a marker of a bundle with this file.
abbrev pub marks : Text → Text → Bool
marks j f =
    has_suffix f synced_extension
    && any_of (λ k. k == j) (sidecars (trim_suffix f synced_extension))

content-purge_entries :
    (fs : List Text) (d : Disk) (j : Text)
    → content (purge_entries fs d).1 j
      ≡ (if not (d.is_locked j) && any_of (marks j) fs then none else content d j)
unfolding purge_entries
content-purge_entries [] d j = ground arith
content-purge_entries (f ∷ fs) d j =
    let gone = remove_all (sidecars (trim_suffix f synced_extension)) d in
    elim (Bool-cases (has_suffix f synced_extension)) [
      | inl e ↦ rw e (
          content-purge_entries fs gone j
          ∙ ground (
            arith,
            content-remove_all (sidecars (trim_suffix f synced_extension)) d j,
            ap (λ (g : Text → Bool). g j)
                (is_locked-remove_all (sidecars (trim_suffix f synced_extension)) d),
          ))
      | inr e ↦ rw e (content-purge_entries fs d j)
    ]

count-purge_entries :
    (fs : List Text) (d : Disk)
    → (purge_entries fs d).0 ≡ length (keep_if (λ f. has_suffix f synced_extension) fs)
unfolding purge_entries
count-purge_entries [] d = refl
count-purge_entries (f ∷ fs) d = elim (Bool-cases (has_suffix f synced_extension)) [
  | inl e ↦
      rw e
        (ap suc (count-purge_entries fs (remove_all (sidecars (trim_suffix f synced_extension)) d)))
  | inr e ↦ rw e (count-purge_entries fs d)
]

-- A marker marks itself.
marks-marker : (j : Text) → has_suffix j synced_extension ≡ true → marks j j ≡ true
unfolding sidecars
marks-marker j h =
    let own : (trim_suffix j synced_extension ++ synced_extension) ≡ j =
      trim_suffix-restore j synced_extension h in
    rw h (rw own (rw (eq_refl j) (ground arith)))

-- Exactly the sidecar files of the markers that the directory listed are removed, those excepted
-- that the system refuses to remove; the count is that of the markers.
pub purge_cloud_lem :
    (d : Disk) (j : Text)
    → (content (purge_cloud true d).1 j
        ≡ (if not (d.is_locked j) && any_of (marks j) (Disk.names d) then none else content d j))
      × ((purge_cloud true d).0
          ≡ length (keep_if (λ f. has_suffix f synced_extension) (Disk.names d)))
unfolding purge_cloud
purge_cloud_lem d j =
    (content-purge_entries (Disk.names d) d j, count-purge_entries (Disk.names d) d)

-- On a disk that refuses no removal, no marker is left.
pub purge_cloud-no_marker :
    (d : Disk) (j : Text)
    → d.is_locked j ≡ false
    → has_suffix j synced_extension ≡ true
    → content (purge_cloud true d).1 j ≡ none
purge_cloud-no_marker d j unlocked h =
    (purge_cloud_lem d j).0
    ∙ (rw unlocked (elim (Option-cases (content d j)) [
      | inl e ↦ rw e (ground arith)
      | inr (v, e) ↦ rw (any_of-names d j v (marks j) e (marks-marker j h)) refl
    ]))

pub is_locked-purge_entries :
    (fs : List Text) (d : Disk) → (purge_entries fs d).1.is_locked ≡ d.is_locked
unfolding purge_entries
is_locked-purge_entries [] d = refl
is_locked-purge_entries (f ∷ fs) d = elim (Bool-cases (has_suffix f synced_extension)) [
  | inl e ↦ rw e (
      is_locked-purge_entries fs (remove_all (sidecars (trim_suffix f synced_extension)) d)
      ∙ is_locked-remove_all (sidecars (trim_suffix f synced_extension)) d)
  | inr e ↦ rw e (is_locked-purge_entries fs d)
]
