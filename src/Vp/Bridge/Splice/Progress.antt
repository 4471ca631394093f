-- ===== src/Vp/Bridge/Splice/Progress.antt =====
-- A splice of go/vp/tun2socks.go always ends.
use caravel.Prelude.{
  Bool, true, ℕ, zero, suc, ◌+◌, ◌<◌, ◌≡◌, ◌⊎◌, inl, inr, refl, List, [], ◌∷◌, arith,
}
use caravel.Vp.Stats.{add64}
use caravel.Vp.Bridge.Splice.{
  Dir, copying, copied, counted, half_closed, signalled, Main, wait_two, wait_one, close_both,
  close_remote, returned, Flow, new_flow, Counts, CopyMove, io_copy, add, close_write, signal,
  MainMove, receive_first, receive_second, closes_local, closes_remote, FlowMove, uploads,
  downloads, main_moves, Reach,
}
use caravel.Vp.Bridge.Splice.Laws.{sent_done, received_done, IsFlow, AreFlows, Reach-AreFlows}

-- The steps that a goroutine has left.
abbrev pub dir_left : Dir → ℕ
dir_left copying = 4
dir_left (copied n) = 3
dir_left (counted n) = 2
dir_left (half_closed n) = 1
dir_left (signalled n) = 0

abbrev pub main_left : Main → ℕ
main_left wait_two = 4
main_left wait_one = 3
main_left close_both = 2
main_left close_remote = 1
main_left returned = 0

abbrev pub left : Flow → ℕ
left f = dir_left f.up + (dir_left f.down + main_left f.main)

CopyMove-left :
    {c q c' q' : ℕ} {w w' : Bool} {d d' : Dir}
    → CopyMove c q w d c' q' w' d'
    → suc (dir_left d') ≡ dir_left d
CopyMove-left (io_copy n h) = refl
CopyMove-left add = refl
CopyMove-left close_write = refl
CopyMove-left (signal h) = refl

MainMove-left : {q q' : ℕ} {m m' : Main} → MainMove q m q' m' → suc (main_left m') ≡ main_left m
MainMove-left (receive_first r h) = refl
MainMove-left (receive_second r h) = refl
MainMove-left closes_local = refl
MainMove-left closes_remote = refl

FlowMove-left : {s t : Counts} {f g : Flow} → FlowMove s f t g → suc (left g) ≡ left f
FlowMove-left (uploads m) = omega (arith, CopyMove-left m)
FlowMove-left (downloads m) = omega (arith, CopyMove-left m)
FlowMove-left (main_moves m) = omega (arith, MainMove-left m)

-- A copy has signalled, or it can go on: a send finds room in the channel.
CopyMove-next :
    (c q : ℕ) (w : Bool) (d : Dir)
    → q < 2
    → (sent_done d ≡ 1)
      ⊎ ((c' : ℕ) × (q' : ℕ) × (w' : Bool) × (d' : Dir) × CopyMove c q w d c' q' w' d')
CopyMove-next c q w copying h = inr (c, q, w, copied 0, io_copy 0 (omega arith))
CopyMove-next c q w (copied n) h = inr (add64 c n, q, w, counted n, add)
CopyMove-next c q w (counted n) h = inr (c, q, true, half_closed n, close_write)
CopyMove-next c q w (half_closed n) h = inr (c, suc q, w, signalled n, signal h)
CopyMove-next c q w (signalled n) h = inl refl

-- splice has returned, or can go on, or waits for a send.
MainMove-next :
    (q : ℕ) (m : Main)
    → (m ≡ returned)
      ⊎ (((q' : ℕ) × (m' : Main) × MainMove q m q' m') ⊎ ((q ≡ 0) × (received_done m < 2)))
MainMove-next zero wait_two = inr (inr (refl, omega arith))
MainMove-next (suc q) wait_two = inr (inl (q, wait_one, receive_first q refl))
MainMove-next zero wait_one = inr (inr (refl, omega arith))
MainMove-next (suc q) wait_one = inr (inl (q, close_both, receive_second q refl))
MainMove-next q close_both = inr (inl (q, close_remote, closes_local))
MainMove-next q close_remote = inr (inl (q, returned, closes_remote))
MainMove-next q returned = inl refl

abbrev pub CanMove : Counts → Flow → Type 0
CanMove s f = (t : Counts) × (g : Flow) × FlowMove s f t g

IsFlow-CanMove : (s : Counts) (f : Flow) → IsFlow f → (f.main ≡ returned) ⊎ CanMove s f
IsFlow-CanMove s f h = elim (MainMove-next f.queued f.main) [
  | inl e ↦ inl e
  | inr (inl (q, m, move)) ↦ inr (_, _, main_moves move)
  | inr (inr (empty, waits)) ↦ elim (CopyMove-next s.tx f.queued f.remote_shut f.up (omega arith)) [
    | inr (c, q, w, d, move) ↦ inr (_, _, uploads move)
    | inl up_done ↦ elim (CopyMove-next s.rx f.queued f.local_shut f.down (omega arith)) [
      | inr (c, q, w, d, move) ↦ inr (_, _, downloads move)
      | inl down_done ↦ absurd (omega (arith, h.tokens))
    ]
  ]
]

-- What holds of every splice of a bridge: it has returned or has a step to make, and each of its steps
-- leaves it with one less.
abbrev pub AllEnd : Counts → List Flow → Type 0
AllEnd s [] = Unit {0}
AllEnd s (f ∷ fs) =
    ((f.main ≡ returned) ⊎ CanMove s f)
    × ((t : Counts) (g : Flow) → FlowMove s f t g → suc (left g) ≡ left f)
    × AllEnd s fs

AreFlows-AllEnd : (s : Counts) (fs : List Flow) → AreFlows fs → AllEnd s fs
AreFlows-AllEnd s [] h = tt
AreFlows-AllEnd s (f ∷ fs) (h, hs) =
    (IsFlow-CanMove s f h, λ t g m. FlowMove-left m, AreFlows-AllEnd s fs hs)

-- No splice is stuck and none goes on for ever: in every state that a bridge reaches, where each io.Copy
-- may return, a splice that has not returned has a step that it or one of its goroutines can make, and
-- each such step leaves it one step less, of the twelve that it starts with.
pub Reach-AllEnd : {s : Counts} {fs : List Flow} → Reach s fs → AllEnd s fs × (left new_flow ≡ 12)
Reach-AllEnd {s} {fs} r = (AreFlows-AllEnd s fs (Reach-AreFlows r), refl)
