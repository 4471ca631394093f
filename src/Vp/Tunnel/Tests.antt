-- ===== src/Vp/Tunnel/Tests.antt =====
-- Concurrent calls of a Tunnel's methods at a concrete interleaving.
use caravel.Prelude.{ℕ, ◌≤◌, ◌≡◌, ◌⊎◌, refl, if◌then◌else◌}
use caravel.Vp.Tunnel.{
  closing, stats, take, take_nothing, close_device, look_up, use_device, System, step, Reach, start,
  later,
}
use caravel.Vp.Tunnel.Laws.{Reach-closes}

-- Goroutine 0 reads the counters while 1 and 2 close; its dump is read after the device's Close.
abbrev closed_twice : (s : System) × Reach s
closed_twice = (
  _,
  later
      (later
        (later (later (later start (step 0 (look_up stats refl))) (step 1 (take refl)))
          (step 2 (take_nothing refl)))
        (step 1 close_device))
      (step 0 use_device),
)

Reach-closes_example :
    (closed_twice.0.shared.closes ≤ 1)
    × ((closed_twice.0.shared.closes ≡ (if closed_twice.0.shared.has_dev then 0 else 1))
        ⊎ ((i : ℕ) × (closed_twice.0.pc i ≡ closing) × (closed_twice.0.shared.closes ≡ 0)))
Reach-closes_example = Reach-closes closed_twice.1
