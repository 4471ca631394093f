-- ===== src/Vp/Bridge/Splice/Laws.antt =====
-- What the counters hold and when connections are closed, in every order of the goroutines' steps.
use caravel.Prelude.{ℕ, ◌+◌, ◌%◌, ◌^◌, ◌<◌, ◌≡◌, refl, List, [], ◌∷◌, arith, Bool, true, false}
use caravel.Vp.Stats.{add64}
use caravel.Vp.Bridge.Splice.{
  Dir, copying, copied, counted, half_closed, signalled, Main, wait_two, wait_one, close_both,
  close_remote, returned, Flow, Counts, CopyMove, io_copy, add, close_write, signal, MainMove,
  receive_first, receive_second, closes_local, closes_remote, FlowMove, uploads, downloads,
  main_moves, FlowsMove, here, there, Reach, start, accept, later,
}

-- The bytes of a direction that its goroutine has added.
abbrev pub added : Dir → ℕ
added copying = 0
added (copied n) = 0
added (counted n) = n
added (half_closed n) = n
added (signalled n) = n

abbrev pub sent_done : Dir → ℕ
sent_done copying = 0
sent_done (copied n) = 0
sent_done (counted n) = 0
sent_done (half_closed n) = 0
sent_done (signalled n) = 1

abbrev pub received_done : Main → ℕ
received_done wait_two = 0
received_done wait_one = 1
received_done close_both = 2
received_done close_remote = 2
received_done returned = 2

-- Whether splice has closed a connection, or is about to.
abbrev pub is_closing : Main → Bool
is_closing wait_two = false
is_closing wait_one = false
is_closing close_both = true
is_closing close_remote = true
is_closing returned = true

abbrev pub total_up : List Flow → ℕ
total_up [] = 0
total_up (f ∷ fs) = added f.up + total_up fs

abbrev pub total_down : List Flow → ℕ
total_down [] = 0
total_down (f ∷ fs) = added f.down + total_down fs

abbrev pub is_half_closed : Dir → Bool
is_half_closed copying = false
is_half_closed (copied n) = false
is_half_closed (counted n) = false
is_half_closed (half_closed n) = true
is_half_closed (signalled n) = false

-- The channel holds the sends that splice has not received, and a direction that has signalled, or is
-- about to, has closed its target's write side.
pub record IsFlow (f : Flow) : Type 0 where
  pub tokens : f.queued + received_done f.main ≡ sent_done f.up + sent_done f.down
  pub up_shuts : sent_done f.up ≡ 1 → f.remote_shut ≡ true
  pub down_shuts : sent_done f.down ≡ 1 → f.local_shut ≡ true
  pub up_keeps : is_half_closed f.up ≡ true → f.remote_shut ≡ true
  pub down_keeps : is_half_closed f.down ≡ true → f.local_shut ≡ true

abbrev pub AreFlows : List Flow → Type 0
AreFlows [] = Unit {0}
AreFlows (f ∷ fs) = IsFlow f × AreFlows fs

-- What a step does to a counter.
abbrev Counted : ℕ → ℕ → ℕ → ℕ → Type 0
Counted c a c' a' = (c < 2 ^ 64 → c' < 2 ^ 64) × ((c' + a) % 2 ^ 64 ≡ (c + a') % 2 ^ 64)

CopyMove-Counted :
    {c q c' q' : ℕ} {w w' : Bool} {d d' : Dir}
    → CopyMove c q w d c' q' w' d'
    → Counted c (added d) c' (added d')
CopyMove-Counted (io_copy n h) = (λ b. b, refl)
CopyMove-Counted add = unfold add64 in (λ b. omega arith, omega arith)
CopyMove-Counted close_write = (λ b. b, refl)
CopyMove-Counted (signal h) = (λ b. b, refl)

CopyMove-tokens :
    {c q c' q' : ℕ} {w w' : Bool} {d d' : Dir}
    → CopyMove c q w d c' q' w' d'
    → q' + sent_done d ≡ q + sent_done d'
CopyMove-tokens (io_copy n h) = refl
CopyMove-tokens add = refl
CopyMove-tokens close_write = refl
CopyMove-tokens (signal h) = omega arith

MainMove-tokens :
    {q q' : ℕ} {m m' : Main} → MainMove q m q' m' → q' + received_done m' ≡ q + received_done m
MainMove-tokens (receive_first r h) = omega arith
MainMove-tokens (receive_second r h) = omega arith
MainMove-tokens closes_local = refl
MainMove-tokens closes_remote = refl

CopyMove-shuts :
    {c q c' q' : ℕ} {w w' : Bool} {d d' : Dir}
    → CopyMove c q w d c' q' w' d'
    → (is_half_closed d ≡ true → w ≡ true)
    → (sent_done d' ≡ 1 → w' ≡ true) × (is_half_closed d' ≡ true → w' ≡ true)
CopyMove-shuts (io_copy n h) k = (λ e. absurd (omega (arith, e)), λ e. cc)
CopyMove-shuts add k = (λ e. absurd (omega (arith, e)), λ e. cc)
CopyMove-shuts close_write k = (λ e. refl, λ e. refl)
CopyMove-shuts (signal h) k = (λ e. k refl, λ e. cc)

FlowMove-IsFlow : {s t : Counts} {f g : Flow} → FlowMove s f t g → IsFlow f → IsFlow g
FlowMove-IsFlow (uploads m) h = record {
  tokens = omega (arith, h.tokens, CopyMove-tokens m);
  up_shuts = (CopyMove-shuts m h.up_keeps).0;
  down_shuts = h.down_shuts;
  up_keeps = (CopyMove-shuts m h.up_keeps).1;
  down_keeps = h.down_keeps;
}
FlowMove-IsFlow (downloads m) h = record {
  tokens = omega (arith, h.tokens, CopyMove-tokens m);
  up_shuts = h.up_shuts;
  down_shuts = (CopyMove-shuts m h.down_keeps).0;
  up_keeps = h.up_keeps;
  down_keeps = (CopyMove-shuts m h.down_keeps).1;
}
FlowMove-IsFlow (main_moves m) h = record {
  tokens = omega (arith, h.tokens, MainMove-tokens m);
  up_shuts = h.up_shuts;
  down_shuts = h.down_shuts;
  up_keeps = h.up_keeps;
  down_keeps = h.down_keeps;
}

-- A step of a flow on both counters.
abbrev Steps : Counts → ℕ → ℕ → Counts → ℕ → ℕ → Type 0
Steps s u d t u' d' = Counted s.tx u t.tx u' × Counted s.rx d t.rx d'

FlowMove-Steps :
    {s t : Counts} {f g : Flow}
    → FlowMove s f t g
    → Steps s (added f.up) (added f.down) t (added g.up) (added g.down)
FlowMove-Steps (uploads m) = (CopyMove-Counted m, (λ b. b, refl))
FlowMove-Steps (downloads m) = ((λ b. b, refl), CopyMove-Counted m)
FlowMove-Steps (main_moves m) = ((λ b. b, refl), (λ b. b, refl))

Counted-plus : (c a c' a' k : ℕ) → Counted c a c' a' → Counted c (a + k) c' (a' + k)
Counted-plus c a c' a' k (b, e) = (b, omega (arith, e))

Counted-before : (c a c' a' k : ℕ) → Counted c a c' a' → Counted c (k + a) c' (k + a')
Counted-before c a c' a' k (b, e) = (b, omega (arith, e))

FlowsMove-Steps :
    {s t : Counts} {fs gs : List Flow}
    → FlowsMove s fs t gs
    → Steps s (total_up fs) (total_down fs) t (total_up gs) (total_down gs)
FlowsMove-Steps (here {f} {g} {t} {fs} m) =
    let (u, d) = FlowMove-Steps m in
    (
      Counted-plus _ (added f.up) _ (added g.up) (total_up fs) u,
      Counted-plus _ (added f.down) _ (added g.down) (total_down fs) d,
    )
FlowsMove-Steps (there {f} {t} {fs} {gs} m) =
    let (u, d) = FlowsMove-Steps m in
    (
      Counted-before _ (total_up fs) _ (total_up gs) (added f.up) u,
      Counted-before _ (total_down fs) _ (total_down gs) (added f.down) d,
    )

FlowsMove-AreFlows :
    {s t : Counts} {fs gs : List Flow} → FlowsMove s fs t gs → AreFlows fs → AreFlows gs
FlowsMove-AreFlows (here m) (h, hs) = (FlowMove-IsFlow m h, hs)
FlowsMove-AreFlows (there m) (h, hs) = (h, FlowsMove-AreFlows m hs)

pub Reach-AreFlows : {s : Counts} {fs : List Flow} → Reach s fs → AreFlows fs
Reach-AreFlows start = tt
Reach-AreFlows (accept r) = (
  record {
    tokens = refl;
    up_shuts = λ e. absurd (omega (arith, e));
    down_shuts = λ e. absurd (omega (arith, e));
    up_keeps = λ e. cc;
    down_keeps = λ e. cc;
  },
  Reach-AreFlows r,
)
Reach-AreFlows (later r m) = FlowsMove-AreFlows m (Reach-AreFlows r)

-- A counter that is what has been added to it.
abbrev IsSum : ℕ → ℕ → Type 0
IsSum c total = (c < 2 ^ 64) × (c ≡ total % 2 ^ 64)

IsSum-step : (c a c' a' : ℕ) → Counted c a c' a' → IsSum c a → IsSum c' a'
IsSum-step c a c' a' (b, e) (lt, sum) = (b lt, omega (arith, b lt, e, sum))

Reach-IsSum :
    {s : Counts} {fs : List Flow}
    → Reach s fs
    → IsSum s.tx (total_up fs) × IsSum s.rx (total_down fs)
Reach-IsSum start = (omega arith, omega arith)
Reach-IsSum (accept r) =
    let ((a, b), (c, d)) = Reach-IsSum r in ((a, omega (arith, b)), (c, omega (arith, d)))
Reach-IsSum (later {s} {t} {fs} {gs} r m) =
    let (u, d) = FlowsMove-Steps m in
    let (x, y) = Reach-IsSum r in
    (
      IsSum-step s.tx (total_up fs) t.tx (total_up gs) u x,
      IsSum-step s.rx (total_down fs) t.rx (total_down gs) d y,
    )

-- A connection is closed only after both of its directions have closed their targets' write sides and
-- signalled.
abbrev pub ClosedLast : List Flow → Type 0
ClosedLast [] = Unit {0}
ClosedLast (f ∷ fs) =
    (is_closing f.main ≡ true
      → (f.remote_shut ≡ true)
        × (f.local_shut ≡ true)
        × (sent_done f.up ≡ 1)
        × (sent_done f.down ≡ 1))
    × ClosedLast fs

sent_done-le : (d : Dir) → sent_done d < 2
sent_done-le copying = omega arith
sent_done-le (copied n) = omega arith
sent_done-le (counted n) = omega arith
sent_done-le (half_closed n) = omega arith
sent_done-le (signalled n) = omega arith

received_both : (m : Main) → is_closing m ≡ true → received_done m ≡ 2
received_both wait_two h = cc
received_both wait_one h = cc
received_both close_both h = refl
received_both close_remote h = refl
received_both returned h = refl

AreFlows-ClosedLast : (fs : List Flow) → AreFlows fs → ClosedLast fs
AreFlows-ClosedLast [] h = tt
AreFlows-ClosedLast (f ∷ fs) (h, hs) = (
  λ e.
      let up : sent_done f.up ≡ 1 =
        omega (arith, h.tokens, received_both f.main e, sent_done-le f.up, sent_done-le f.down) in
      let down : sent_done f.down ≡ 1 =
        omega (arith, h.tokens, received_both f.main e, sent_done-le f.up, sent_done-le f.down) in
      (h.up_shuts up, h.down_shuts down, up, down),
  AreFlows-ClosedLast fs hs,
)

-- In whatever order connections come and the goroutines of their splices step, tx is the sum of the bytes
-- that have been added for app to internet and rx that for internet to app, over all connections that
-- there were, as 64-bit integers that wrap around; and each splice closes its two connections only after
-- both of its directions have closed their targets' write sides and signalled.
pub Reach-counts :
    {s : Counts} {fs : List Flow}
    → Reach s fs
    → (s.tx ≡ total_up fs % 2 ^ 64) × (s.rx ≡ total_down fs % 2 ^ 64) × ClosedLast fs
Reach-counts {s} {fs} r =
    let ((_, u), (_, d)) = Reach-IsSum r in (u, d, AreFlows-ClosedLast fs (Reach-AreFlows r))
