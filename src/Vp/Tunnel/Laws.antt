-- ===== src/Vp/Tunnel/Laws.antt =====
-- However the calls interleave, the device is closed once.
use caravel.Prelude.{
  ℕ, ◌+◌, ◌≤◌, ◌≡◌, ◌≢◌, ◌⊎◌, refl, sym, ap, ◌∙◌, true, false, eqb, eqb_iff, arith, if◌then◌else◌,
  Bool-cases, inl, inr,
}
use caravel.Vp.Tunnel.{
  Shared, Pc, idle, closing, using, Move, take, take_nothing, close_device, look_up,
  look_up_nothing, use_device, System, set_pc, Step, step, Reach, start, later,
}

-- The device is there, or taken by one Close, or closed once.
pub data Inv (s : System) : Type 0 where
  fresh : s.shared.has_dev ≡ true → s.shared.closes ≡ 0 → ((i : ℕ) → s.pc i ≢ closing) → Inv s
  taken :
      (k : ℕ)
      → s.shared.has_dev ≡ false
      → s.shared.closes ≡ 0
      → s.pc k ≡ closing
      → ((i : ℕ) → s.pc i ≡ closing → i ≡ k)
      → Inv s
  shut : s.shared.has_dev ≡ false → s.shared.closes ≡ 1 → ((i : ℕ) → s.pc i ≢ closing) → Inv s

-- A goroutine that does not end in `closing` adds no Close.
set_pc-quiet :
    (pc : ℕ → Pc) (i : ℕ) (p : Pc)
    → p ≢ closing
    → ((j : ℕ) → pc j ≢ closing)
    → (j : ℕ) → set_pc pc i p j ≢ closing
set_pc-quiet pc i p h quiet j = elim (Bool-cases (eqb i j)) [
  | inl e ↦ rw e h
  | inr e ↦ rw e (quiet j)
]

not_idle : idle ≢ closing
not_idle e = cc

set_pc_self : (pc : ℕ → Pc) (i : ℕ) (p : Pc) → set_pc pc i p i ≡ p
set_pc_self pc i p = ground arith

-- The other goroutines see the one Close that has the device.
still_taken :
    (s : System) (i k : ℕ) (p : Pc)
    → s.shared.has_dev ≡ false
    → s.shared.closes ≡ 0
    → s.pc k ≡ closing
    → ((j : ℕ) → s.pc j ≡ closing → j ≡ k)
    → s.pc i ≢ closing
    → p ≢ closing
    → Inv (record { shared = s.shared; pc = set_pc s.pc i p })
still_taken s i k p d c own only not_i not_p = taken k d c own' only'
  where
    own' : set_pc s.pc i p k ≡ closing
    own' = elim (Bool-cases (eqb i k)) [
      | inl e ↦ absurd (not_i (ap s.pc ((eqb_iff i k).0 e) ∙ own))
      | inr e ↦ rw e own
    ]

    only' : (j : ℕ) → set_pc s.pc i p j ≡ closing → j ≡ k
    only' j h = elim (Bool-cases (eqb i j)) [
      | inl e ↦ absurd (not_p (rw e at h))
      | inr e ↦ only j (rw e at h)
    ]

-- The Close that takes the device is the only one.
now_taken :
    (s : System) (i : ℕ)
    → s.shared.closes ≡ 0
    → ((j : ℕ) → s.pc j ≢ closing)
    → Inv (record { shared = record s.shared { has_dev = false }; pc = set_pc s.pc i closing })
now_taken s i c quiet = taken i refl c (set_pc_self s.pc i closing) only
  where
    only : (j : ℕ) → set_pc s.pc i closing j ≡ closing → j ≡ i
    only j h = elim (Bool-cases (eqb i j)) [
      | inl e ↦ sym ((eqb_iff i j).0 e)
      | inr e ↦ absurd (quiet j (rw e at h))
    ]

-- Once that Close has closed the device no other is about to.
now_shut :
    (s : System) (i k : ℕ)
    → s.shared.has_dev ≡ false
    → s.shared.closes ≡ 0
    → s.pc i ≡ closing
    → ((j : ℕ) → s.pc j ≡ closing → j ≡ k)
    → Inv (record {
      shared = record s.shared { closes = s.shared.closes + 1 };
      pc = set_pc s.pc i idle;
    })
now_shut s i k d c at only = shut d (omega arith) quiet
  where
    quiet : (j : ℕ) → set_pc s.pc i idle j ≢ closing
    quiet j h = elim (Bool-cases (eqb i j)) [
      | inl e ↦ not_idle (rw e at h)
      | inr e ↦ absurd (cc (e, (eqb_iff i j).1 (only i at ∙ sym (only j (rw e at h)))))
    ]

Move-Inv :
    (s : System) (i : ℕ) {q : Pc} {m : Shared} {p : Pc}
    → s.pc i ≡ q
    → Move s.shared q m p
    → Inv s
    → Inv (record { shared = m; pc = set_pc s.pc i p })
Move-Inv s i at (take h) (fresh d c quiet) = now_taken s i c quiet
Move-Inv s i at (take h) (taken k d c own only) = cc
Move-Inv s i at (take h) (shut d c quiet) = cc
Move-Inv s i at (take_nothing h) (fresh d c quiet) = cc
Move-Inv s i at (take_nothing h) (taken k d c own only) =
    still_taken s i k idle d c own only (λ e. not_idle (sym at ∙ e)) not_idle
Move-Inv s i at (take_nothing h) (shut d c quiet) =
    shut d c (set_pc-quiet s.pc i idle (λ e. cc) quiet)
Move-Inv s i at close_device (fresh d c quiet) = absurd (quiet i at)
Move-Inv s i at close_device (taken k d c own only) = now_shut s i k d c at only
Move-Inv s i at close_device (shut d c quiet) = absurd (quiet i at)
Move-Inv s i at (look_up c h) (fresh d n quiet) =
    fresh d n (set_pc-quiet s.pc i (using c) (λ e. cc) quiet)
Move-Inv s i at (look_up c h) (taken k d n own only) = cc
Move-Inv s i at (look_up c h) (shut d n quiet) = cc
Move-Inv s i at (look_up_nothing c h) (fresh d n quiet) = cc
Move-Inv s i at (look_up_nothing c h) (taken k d n own only) =
    still_taken s i k idle d n own only (λ e. not_idle (sym at ∙ e)) not_idle
Move-Inv s i at (look_up_nothing c h) (shut d n quiet) =
    shut d n (set_pc-quiet s.pc i idle (λ e. cc) quiet)
Move-Inv s i at use_device (fresh d c quiet) = fresh d c (set_pc-quiet s.pc i idle (λ e. cc) quiet)
Move-Inv s i at use_device (taken k d c own only) =
    still_taken s i k idle d c own only (λ e. cc (sym at ∙ e)) not_idle
Move-Inv s i at use_device (shut d c quiet) = shut d c (set_pc-quiet s.pc i idle (λ e. cc) quiet)

Step-Inv : {s t : System} → Step s t → Inv s → Inv t
Step-Inv {s} (step i m) inv = Move-Inv s i refl m inv

Reach-Inv : {s : System} → Reach s → Inv s
Reach-Inv start = fresh refl refl (λ i e. not_idle e)
Reach-Inv (later r st) = Step-Inv st (Reach-Inv r)

-- Whichever goroutines have called Close, Stats, IpcHandle and Wait, and in whatever order their steps
-- came, the device has been closed at most once: not at all while the tunnel has it, and once after
-- a Close has taken it, unless that Close is still about to.
pub Reach-closes :
    {s : System}
    → Reach s
    → (s.shared.closes ≤ 1)
      × ((s.shared.closes ≡ (if s.shared.has_dev then 0 else 1))
          ⊎ ((i : ℕ) × (s.pc i ≡ closing) × (s.shared.closes ≡ 0)))
Reach-closes {s} r = go (Reach-Inv r)
  where
    go :
        Inv s
        → (s.shared.closes ≤ 1)
          × ((s.shared.closes ≡ (if s.shared.has_dev then 0 else 1))
              ⊎ ((i : ℕ) × (s.pc i ≡ closing) × (s.shared.closes ≡ 0)))
    go (fresh d c quiet) = (omega arith, inl (rw d c))
    go (taken k d c own only) = (omega arith, inr (k, own, c))
    go (shut d c quiet) = (omega arith, inl (rw d c))
