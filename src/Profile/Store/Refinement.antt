-- ===== src/Profile/Store/Refinement.antt =====
-- The store of go/profile/store.go as an implementation of a map from file names to texts.
use caravel.Prelude.{
  ◌≡◌, refl, ◌∙◌, true, false, inl, inr, Option, none, some, List, [], ◌∷◌, arith, if◌then◌else◌,
  ok, err, panic, Result, Result-cases, map_ok, profile_not_found, or_err,
}
use caravel.Prelude.Text.{Text, ◌==◌}
use caravel.Disk
use caravel.Disk.{Disk, content, found, missing}
use caravel.Disk.Laws.{content-write, content-remove}
use caravel.Profile.Parse.{header}
use caravel.Profile.Store.{path, import, raw_of, remove}
use caravel.Profile.Types.{ProfileJson}

-- A call of the store's interface.
pub data Op : Type 0 where
  import_op : Text → Text → Op
  raw_op : Text → Op
  remove_op : Text → Op

-- The abstract store: what each name holds. Names that lead to one file are one name.
abbrev pub Map : Type 0
Map = Text → Option Text

abbrev pub update : Map → Text → Option Text → Map
update m k v j = if k == j then v else m j

-- A text is stored where it is a pharos-profile envelope.
abbrev pub imported : Text → Text → Map → Result (Unit {0}) → Result Text × Map
imported name raw m (ok _) = (ok (path name), update m (path name) (some raw))
imported name raw m (err e) = (err e, m)
imported name raw m panic = (panic, m)

module _ (J : ProfileJson) where
  -- What the interface promises.
  abbrev pub spec : Op → Map → Result Text × Map
  spec (import_op name raw) m = imported name raw m (map_ok (λ _. tt) (header J raw))
  spec (raw_op name) m = (or_err (m (path name)) profile_not_found, m)
  spec (remove_op name) m = (ok [], update m (path name) none)

  -- What the code does.
  abbrev pub exec : Op → Disk → Result Text × Disk
  exec (import_op name raw) d = import J name raw d
  exec (raw_op name) d = (raw_of name d, d)
  exec (remove_op name) d = let (r, d') = remove name d in (map_ok (λ _. []) r, d')

  abbrev pub run_spec : List Op → Map → List (Result Text) × Map
  run_spec [] m = ([], m)
  run_spec (o ∷ os) m = let (r, m1) = spec o m in let (rs, m2) = run_spec os m1 in (r ∷ rs, m2)

  abbrev pub run : List Op → Disk → List (Result Text) × Disk
  run [] d = ([], d)
  run (o ∷ os) d = let (r, d1) = exec o d in let (rs, d2) = run os d1 in (r ∷ rs, d2)

  -- A disk that refuses nothing and holds what the map holds.
  pub record Refines (d : Disk) (m : Map) : Type 0 where
    pub unlocked : (k : Text) → d.is_locked k ≡ false
    pub readable : (k : Text) → d.is_unreadable k ≡ false
    pub same : (k : Text) → content d k ≡ m k

  -- The results are the same, and so are the stores afterwards.
  record Agrees (x : Result Text × Disk) (y : Result Text × Map) : Type 0 where
    result : x.0 ≡ y.0
    after : Refines x.1 y.1

  written :
      (d : Disk) (m : Map) (k v : Text)
      → Refines d m
      → Refines (Disk.write d k v).0 (update m k (some v))
  unfolding Disk.write
  written d m k v h = record {
    unlocked = λ j. rw (h.unlocked k, Disk.write) (h.unlocked j);
    readable = λ j. rw (h.unlocked k, Disk.write) (h.readable j);
    same = λ j. content-write d k v j ∙ rw (h.unlocked k, h.same j) refl;
  }

  dropped :
      (d : Disk) (m : Map) (k : Text) → Refines d m → Refines (Disk.remove d k).0 (update m k none)
  unfolding Disk.remove
  dropped d m k h = record {
    unlocked = λ j. ground (arith, h.unlocked j);
    readable = λ j. ground (arith, h.readable j);
    same = λ j. content-remove d k j ∙ rw (h.unlocked k, h.same j) refl;
  }

  write_done : (d : Disk) (m : Map) (k v : Text) → Refines d m → (Disk.write d k v).1 ≡ true
  unfolding Disk.write
  write_done d m k v h = rw (h.unlocked k, Disk.write) refl

  remove-disk : (name : Text) (d : Disk) → (remove name d).1 ≡ (Disk.remove d (path name)).0
  unfolding remove
  remove-disk name d = ground arith

  import-Agrees :
      (name raw : Text) (d : Disk) (m : Map)
      → Refines d m
      → Agrees (exec (import_op name raw) d) (spec (import_op name raw) m)
  unfolding import
  import-Agrees name raw d m h = elim (Result-cases (header J raw)) [
    | inl (env, e) ↦
        rw (e, import)
          (rw (write_done d m (path name) raw h, import)
            (record { result = refl; after = written d m (path name) raw h }))
    | inr (inl (x, e)) ↦ rw (e, import) (record { result = refl; after = h })
    | inr (inr e) ↦ rw (e, import) (record { result = refl; after = h })
  ]

  raw-Agrees :
      (name : Text) (d : Disk) (m : Map)
      → Refines d m
      → Agrees (exec (raw_op name) d) (spec (raw_op name) m)
  unfolding raw_of Disk.read
  raw-Agrees name d m h = record {
    result = ground (arith, h.same (path name), h.readable (path name));
    after = h;
  }

  remove-Agrees :
      (name : Text) (d : Disk) (m : Map)
      → Refines d m
      → Agrees (exec (remove_op name) d) (spec (remove_op name) m)
  unfolding remove Disk.remove
  remove-Agrees name d m h = record {
    result = ground (arith, h.unlocked (path name));
    after = rw (remove-disk name d) (dropped d m (path name) h);
  }

  exec-Agrees : (o : Op) (d : Disk) (m : Map) → Refines d m → Agrees (exec o d) (spec o m)
  exec-Agrees (import_op name raw) d m h = import-Agrees name raw d m h
  exec-Agrees (raw_op name) d m h = raw-Agrees name d m h
  exec-Agrees (remove_op name) d m h = remove-Agrees name d m h

  -- On a disk that refuses nothing, every sequence of Import, Raw and Remove returns what the abstract
  -- map returns, call by call, and leaves the files that it leaves: an import of an envelope stores
  -- the text under the file's name, any other import changes nothing, a removal forgets the name, and
  -- Raw gives the text that was stored last.
  pub run-Refines :
      (os : List Op) (d : Disk) (m : Map)
      → Refines d m
      → ((run os d).0 ≡ (run_spec os m).0) × Refines (run os d).1 (run_spec os m).1
  run-Refines [] d m h = (refl, h)
  run-Refines (o ∷ os) d m h =
      let step = exec-Agrees o d m h in
      let (same, after) = run-Refines os (exec o d).1 (spec o m).1 step.after in
      (cc (step.result, same), after)
