-- ===== src/Vp/Bridge/Tests.antt =====
-- The bridge at concrete packets and at a concrete interleaving.
use caravel.Prelude.{◌%◌, ◌^◌, ◌≡◌, ◌≢◌, ℤ, pos, refl, none, some, List, [], ◌∷◌, ◌++◌, arith, inr}
use caravel.Prelude.Text.{Text}
use caravel.Vp.Bridge.{
  ipv4, ipv6, failed, reads, crashed, inbound, Meets, delivers, is_cancelled, run_inbound,
}
use caravel.Vp.Bridge.Inbound.{Delivery, rounds_of, HaveVersions, all_known, inbound-frames}
use caravel.Vp.Bridge.Buffers.{run_inbound-InBounds}
use caravel.Vp.Bridge.Splice.{
  Flow, Counts, io_copy, add, close_write, signal, uploads, downloads, here, there, Reach, start,
  accept, later, new_flow,
}
use caravel.Vp.Bridge.Splice.Laws.{total_up, total_down, ClosedLast, Reach-counts}
use caravel.Vp.Bridge.Splice.Progress.{AllEnd, left, Reach-AllEnd}

-- header.IPVersion: the first byte, by which these packets are told apart.
abbrev version : Text → ℤ
version [] = pos 0
version (c ∷ _) = pos c

abbrev delivery : Delivery
delivery = record {
  frames =
      record { packet = 4 ∷ 1 ∷ []; junk = 0 ∷ 0 ∷ []; protocol = some ipv4 }
      ∷ record { packet = []; junk = 9 ∷ []; protocol = none }
      ∷ record { packet = 6 ∷ 2 ∷ 3 ∷ []; junk = []; protocol = some ipv6 }
      ∷ [];
  spare_sizes = 7 ∷ [];
  spare_bufs = (5 ∷ []) ∷ [];
}

inbound-frames_example :
    inbound version (rounds_of (delivery ∷ delivery ∷ []) (reads failed ∷ [])) ≡ record {
      injected =
          all_known (delivery ∷ delivery ∷ []) ++ (inbound version (reads failed ∷ [])).injected;
      ended = (inbound version (reads failed ∷ [])).ended;
    }
inbound-frames_example =
    inbound-frames version (delivery ∷ delivery ∷ []) (reads failed ∷ []) (versions, (versions, tt))
  where
    not_four : version [] ≢ pos 4
    not_four e = cc

    not_six : version [] ≢ pos 6
    not_six e = cc

    versions : HaveVersions version delivery.frames
    versions = (refl, ((not_four, not_six), (refl, tt)))

-- A device without a batch size that fills the one buffer, for the MTU 1, to its end.
abbrev full_read : List Meets
full_read = delivers 1 (81 ∷ []) ((4 ∷ 5 ∷ []) ∷ []) ∷ is_cancelled ∷ []

run_inbound-InBounds_example : (run_inbound version (pos 0) 1 full_read).ended ≢ crashed
run_inbound-InBounds_example =
    run_inbound-InBounds version (pos 0) 1 full_read (inr (omega arith), (omega arith, tt), tt)

-- Two connections; the first to come copies 5 bytes up and 7 down, the second 2 up.
abbrev two_connections : (s : Counts) × (fs : List Flow) × Reach s fs
two_connections = (
  _,
  _,
  later
      (later
        (later
          (later
            (later
              (later
                (later (accept (accept start)) (there (here (uploads (io_copy 5 (omega arith))))))
                (there (here (downloads (io_copy 7 (omega arith))))))
              (here (uploads (io_copy 2 (omega arith)))))
            (here (uploads add)))
          (there (here (downloads add))))
        (there (here (downloads close_write))))
      (there (here (downloads (signal (omega arith))))),
)

Reach-counts_example :
    (two_connections.0.tx ≡ total_up two_connections.1 % 2 ^ 64)
    × (two_connections.0.rx ≡ total_down two_connections.1 % 2 ^ 64)
    × ClosedLast two_connections.1
Reach-counts_example = Reach-counts two_connections.2

Reach-AllEnd_example : AllEnd two_connections.0 two_connections.1 × (left new_flow ≡ 12)
Reach-AllEnd_example = Reach-AllEnd two_connections.2
