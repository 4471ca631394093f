-- ===== src/Vp/XrayTunnel.antt =====
-- The XRayTunnel of go/vp/xray.go: Stats, and Close under its sync.Once.
use caravel.Prelude.{
  ℕ, zero, suc, ◌≡◌, refl, ◌∙◌, ap, Bool, true, false, Option, none, some, List, [], ◌∷◌, ◌++◌,
  if◌then◌else◌,
}
use caravel.Vp.Stats.{Counters, int64, unavailable}

-- What Close does: it stops the bridge, and closes the xray client.
pub data Action : Type 0 where
  stop_bridge : Action
  close_client : Action

-- The bridge's counters, as the patterns of rx and tx, where there is a bridge; whether there is a
-- client; and whether Close has run.
pub record XrayTunnel : Type 0 where
  pub bridge : Option (ℕ × ℕ)
  pub client : Bool
  pub closed : Bool

-- The function under closeOnce
unfoldable pub teardown : XrayTunnel → List Action
teardown t =
    elim t.bridge [ none ↦ [] | some _ ↦ stop_bridge ∷ [] ]
    ++ (if t.client then close_client ∷ [] else [])

-- (*XRayTunnel).Close, with what all calls have done so far, in order.
unfoldable pub close : XrayTunnel × List Action → XrayTunnel × List Action
unfolding teardown
close (t, done) = if t.closed then (t, done) else (record t { closed = true }, done ++ teardown t)

-- (*XRayTunnel).Stats
unfoldable pub stats : XrayTunnel → Counters
stats t = elim t.bridge [
  | none ↦ unavailable
  | some (rx, tx) ↦ record { rx = int64 rx; tx = int64 tx; available = true }
]

-- Several calls of Close.
abbrev pub close_times : ℕ → XrayTunnel × List Action → XrayTunnel × List Action
close_times zero s = s
close_times (suc n) s = close_times n (close s)

close-closed : (t : XrayTunnel) (done : List Action) → t.closed ≡ true → close (t, done) ≡ (t, done)
unfolding close
close-closed t done h = rw h refl

close_times-closed :
    (n : ℕ) (t : XrayTunnel) (done : List Action)
    → t.closed ≡ true
    → close_times n (t, done) ≡ (t, done)
close_times-closed zero t done h = refl
close_times-closed (suc n) t done h =
    ap (close_times n) (close-closed t done h) ∙ close_times-closed n t done h

-- However often Close is called on a running tunnel, its bridge is stopped and then its client closed,
-- both once; its counters can still be read and are those that they were.
pub close_times-running :
    (n rx tx : ℕ)
    → let t : XrayTunnel = record { bridge = some (rx, tx); client = true; closed = false } in
      (◌≡◌ {A = List Action} (close_times (suc n) (t, [])).1 (stop_bridge ∷ close_client ∷ []))
      × (stats (close_times (suc n) (t, [])).0 ≡ stats t)
unfolding close
close_times-running n rx tx =
    let t : XrayTunnel = record { bridge = some (rx, tx); client = true; closed = true } in
    let e = close_times-closed n t (stop_bridge ∷ close_client ∷ []) refl in
    (
      ap (λ (s : XrayTunnel × List Action). s.1) e,
      ap (λ (s : XrayTunnel × List Action). stats s.0) e ∙ unfold stats in refl,
    )
