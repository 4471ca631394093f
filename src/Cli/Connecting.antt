-- ===== src/Cli/Connecting.antt =====
-- cmdConnect of go/cmd/caravel/connect_linux.go on the flags that were typed.
use caravel.Prelude.{◌≡◌, refl, not, List, [], ◌∷◌, if◌then◌else◌, Result, err, ◌>>=◌, not_root}
use caravel.Prelude.Text.{Text, bytes, ◌==◌}
use caravel.Profile.Select.{select, node}
use caravel.Profile.Tunnel.{tunnel}
use caravel.Profile.Types.{Profile, Tunnel}
use caravel.Routes.{Linux, connect_routes}
use caravel.Cli.Flags.{Values, value_of}
use caravel.Cli.Flags.Laws.{Given, joined, spaced, switch, words, settings}
use caravel.Cli.{hold_tunnel}
use caravel.Cli.Process.{World, State, Output, or_stop}

-- The value of a flag that was typed last, "true" for a switch, or the one given for no flag.
abbrev pub last_typed : Text → Text → List Given → Text
last_typed name default [] = default
last_typed name default (joined n v ∷ gs) = last_typed name (if n == name then v else default) gs
last_typed name default (spaced n v ∷ gs) = last_typed name (if n == name then v else default) gs
last_typed name default (switch n ∷ gs) =
    last_typed name (if n == name then bytes "true" else default) gs

pub value_of-settings :
    (name default : Text) (gs : List Given) (vs : Values)
    → value_of name default (settings gs vs) ≡ last_typed name (value_of name default vs) gs
unfolding value_of
value_of-settings name default [] vs = refl
value_of-settings name default (joined n v ∷ gs) vs =
    value_of-settings name default gs ((n, v) ∷ vs)
value_of-settings name default (spaced n v ∷ gs) vs =
    value_of-settings name default gs ((n, v) ∷ vs)
value_of-settings name default (switch n ∷ gs) vs =
    value_of-settings name default gs ((n, bytes "true") ∷ vs)

-- The tunnel that a document gives for a connection and a node, each "" for the first one.
abbrev pub tunnel_of : World → Text → Text → Result Profile → Result Tunnel
tunnel_of W connection node_id r = r >>= λ p.
    select p connection >>= λ cp. node cp node_id >>= λ n. tunnel W.profile_json W.words n

-- What connect does with a document, or with the failure to read one, for the flags that were typed.
abbrev pub connects : World → Linux → List Given → State → Result Profile → Result Output × State
connects W L gs st r =
    or_stop
      (tunnel_of W (last_typed (bytes "connection") [] gs) (last_typed (bytes "node") [] gs) r) st
      λ t.
        if W.is_root
        then hold_tunnel L st (
            connect_routes L t
              (not (last_typed (bytes "no-default-route") (bytes "false") gs == bytes "true")))
        else (err not_root, st)
