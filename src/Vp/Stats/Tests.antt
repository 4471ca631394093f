-- ===== src/Vp/Stats/Tests.antt =====
-- The counters of concrete dumps.
use caravel.Prelude.{◌%◌, ◌^◌, ◌≡◌, refl, true, some, List, [], ◌∷◌}
use caravel.Prelude.Text.{bytes, ◌==◌}
use caravel.Vp.Stats.{int64, stats}
use caravel.Vp.Stats.Laws.{
  Line, received, transmitted, other, dump, IsLine, total_received, total_transmitted, stats-dump,
}

abbrev two_peers : List Line
two_peers =
    other (bytes "public_key") (bytes "00ff")
    ∷ received 12
    ∷ transmitted 300
    ∷ other (bytes "errno") (bytes "0")
    ∷ received 30
    ∷ transmitted 5
    ∷ []

stats-dump_example : stats (some (some (dump two_peers))) ≡ record {
  rx = int64 (total_received two_peers % 2 ^ 64);
  tx = int64 (total_transmitted two_peers % 2 ^ 64);
  available = true;
}
unfolding ◌==◌
stats-dump_example = stats-dump two_peers (first, (tt, (tt, (clean, (tt, (tt, tt))))))
  where
    first : IsLine (other (bytes "public_key") (bytes "00ff"))
    first = (refl, refl, refl, refl, refl)

    clean : IsLine (other (bytes "errno") (bytes "0"))
    clean = (refl, refl, refl, refl, refl)
