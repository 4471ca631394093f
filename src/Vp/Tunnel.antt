-- ===== src/Vp/Tunnel.antt =====
-- The Tunnel of go/vp/engine.go under concurrent calls of Close, Stats, IpcHandle and Wait. What runs
-- under its lock is one step; dev.Close runs outside of it.
pub mod Laws
pub mod Tests
use caravel.Prelude.{ℕ, ◌+◌, eqb, ◌≡◌, Bool, true, false, if◌then◌else◌}

-- The field `dev`, whether it is not nil, and how often the device's Close has been called.
pub record Shared : Type 0 where
  pub has_dev : Bool
  pub closes : ℕ

-- A method that looks the device up.
pub data Call : Type 0 where
  stats : Call
  ipc_handle : Call
  wait : Call

-- Where a goroutine stands: between calls, in a Close that has taken the device, or in another call
-- with the device that it looked up.
pub data Pc : Type 0 where
  idle : Pc
  closing : Pc
  using : Call → Pc

-- One step of one goroutine. A call that finds no device returns at once: Close nil, Stats with its
-- flag unset, IpcHandle without serving, Wait with a closed channel.
pub data Move (s : Shared) : Pc → Shared → Pc → Type 0 where
  take : s.has_dev ≡ true → Move s idle (record s { has_dev = false }) closing
  take_nothing : s.has_dev ≡ false → Move s idle s idle
  close_device : Move s closing (record s { closes = s.closes + 1 }) idle
  look_up : (c : Call) → s.has_dev ≡ true → Move s idle s (using c)
  look_up_nothing : Call → s.has_dev ≡ false → Move s idle s idle
  use_device : {c : Call} → Move s (using c) s idle

-- Goroutines by number, any of which may step.
pub record System : Type 0 where
  pub shared : Shared
  pub pc : ℕ → Pc

abbrev pub set_pc : (ℕ → Pc) → ℕ → Pc → ℕ → Pc
set_pc pc i p j = if eqb i j then p else pc j

pub data Step (s : System) : System → Type 0 where
  step :
      (i : ℕ) {m : Shared} {p : Pc}
      → Move s.shared (s.pc i) m p
      → Step s (record { shared = m; pc = set_pc s.pc i p })

-- The tunnel that Up returns.
abbrev pub init : System
init = record { shared = record { has_dev = true; closes = 0 }; pc = λ _. idle }

pub data Reach : System → Type 0 where
  start : Reach init
  later : {s t : System} → Reach s → Step s t → Reach t
