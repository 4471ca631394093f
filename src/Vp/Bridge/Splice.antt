-- ===== src/Vp/Bridge/Splice.antt =====
-- splice and the counters of go/vp/tun2socks.go: the goroutines of the flows that handleTCP has started,
-- as a step relation. Each atomic Add, each send and each receive is one step.
pub mod Laws
pub mod Progress
use caravel.Prelude.{Bool, true, false, ℕ, zero, suc, ◌+◌, ◌<◌, ◌≡◌, List, [], ◌∷◌, ◌^◌}
use caravel.Vp.Stats.{add64}

-- A goroutine that copies one way, with the bytes that io.Copy has returned: to be added, added, with the
-- write side of its target closed, and after its send on `done`.
pub data Dir : Type 0 where
  copying : Dir
  copied : ℕ → Dir
  counted : ℕ → Dir
  half_closed : ℕ → Dir
  signalled : ℕ → Dir

-- splice itself: the receives that it waits for, and the connections that it has yet to close.
pub data Main : Type 0 where
  wait_two : Main
  wait_one : Main
  close_both : Main
  close_remote : Main
  returned : Main

-- One splice: app to internet is `up`, internet to app is `down`; whether closeWrite was called on the
-- remote connection, up's target, and on the local one, down's; `queued` sends lie in the channel.
pub record Flow : Type 0 where
  pub up : Dir
  pub down : Dir
  pub remote_shut : Bool
  pub local_shut : Bool
  pub queued : ℕ
  pub main : Main

abbrev pub new_flow : Flow
new_flow = record {
  up = copying;
  down = copying;
  remote_shut = false;
  local_shut = false;
  queued = 0;
  main = wait_two;
}

-- The fields rx and tx, as bit patterns of int64.
pub record Counts : Type 0 where
  pub rx : ℕ
  pub tx : ℕ

-- One step of a copying goroutine, on its counter, on whether its target's write side is closed, and on
-- the channel, whose capacity is 2.
pub data CopyMove (c q : ℕ) (shut : Bool) : Dir → ℕ → ℕ → Bool → Dir → Type 0 where
  io_copy : (n : ℕ) → n < 2 ^ 63 → CopyMove c q shut copying c q shut (copied n)
  add : {n : ℕ} → CopyMove c q shut (copied n) (add64 c n) q shut (counted n)
  close_write : {n : ℕ} → CopyMove c q shut (counted n) c q true (half_closed n)
  signal : {n : ℕ} → q < 2 → CopyMove c q shut (half_closed n) c (suc q) shut (signalled n)

-- One step of splice, on the channel.
pub data MainMove (q : ℕ) : Main → ℕ → Main → Type 0 where
  receive_first : (r : ℕ) → q ≡ suc r → MainMove q wait_two r wait_one
  receive_second : (r : ℕ) → q ≡ suc r → MainMove q wait_one r close_both
  closes_local : MainMove q close_both q close_remote
  closes_remote : MainMove q close_remote q returned

pub data FlowMove (s : Counts) (f : Flow) : Counts → Flow → Type 0 where
  uploads :
      {c q : ℕ} {shut : Bool} {d : Dir}
      → CopyMove s.tx f.queued f.remote_shut f.up c q shut d
      → FlowMove s f
          (record { rx = s.rx; tx = c })
          (record {
            up = d;
            down = f.down;
            remote_shut = shut;
            local_shut = f.local_shut;
            queued = q;
            main = f.main;
          })
  downloads :
      {c q : ℕ} {shut : Bool} {d : Dir}
      → CopyMove s.rx f.queued f.local_shut f.down c q shut d
      → FlowMove s f
          (record { rx = c; tx = s.tx })
          (record {
            up = f.up;
            down = d;
            remote_shut = f.remote_shut;
            local_shut = shut;
            queued = q;
            main = f.main;
          })
  main_moves :
      {q : ℕ} {m : Main}
      → MainMove f.queued f.main q m
      → FlowMove s f s (record {
        up = f.up;
        down = f.down;
        remote_shut = f.remote_shut;
        local_shut = f.local_shut;
        queued = q;
        main = m;
      })

-- A step of one of the flows.
pub data FlowsMove (s : Counts) : List Flow → Counts → List Flow → Type 0 where
  here :
      {f g : Flow} {t : Counts} {fs : List Flow}
      → FlowMove s f t g
      → FlowsMove s (f ∷ fs) t (g ∷ fs)
  there :
      {f : Flow} {t : Counts} {fs gs : List Flow}
      → FlowsMove s fs t gs
      → FlowsMove s (f ∷ fs) t (f ∷ gs)

-- What any order of new connections and steps reaches from a new bridge.
pub data Reach : Counts → List Flow → Type 0 where
  start : Reach (record { rx = 0; tx = 0 }) []
  accept : {s : Counts} {fs : List Flow} → Reach s fs → Reach s (new_flow ∷ fs)
  later : {s t : Counts} {fs gs : List Flow} → Reach s fs → FlowsMove s fs t gs → Reach t gs
