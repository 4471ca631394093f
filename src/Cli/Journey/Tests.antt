-- ===== src/Cli/Journey/Tests.antt =====
-- An enrollment and the choice of a tunnel at a concrete link.
use caravel.Prelude.{List, [], ◌∷◌}
use caravel.Prelude.Text.{bytes}
use caravel.DeviceId
use caravel.Disk
use caravel.Samples.Joins.{url_parse, device, relay}
use caravel.Samples.Profiles.{blank}
use caravel.Samples.Worlds.{world}
use caravel.Cli.Flags
use caravel.Cli.Flags.Laws.{Given, joined, spaced, switch}
use caravel.Cli.Journey.{joined_state}
use caravel.Cli.Process.{World, State}

-- The world of a device that has a join link.
abbrev joining : World
joining = record world { urls = url_parse; device = device; relay = relay }

abbrev fresh : State
fresh = record { disk = blank; routes = record { ran = []; undo = [] }; events = [] }

-- `caravel enroll --name laptop " join"`
abbrev enroll_words : List Given
enroll_words = spaced (bytes "name") (bytes "laptop") ∷ []

-- `caravel connect --no-default-route --node=entry laptop`
abbrev connect_words : List Given
connect_words = switch (bytes "no-default-route") ∷ joined (bytes "node") (bytes "entry") ∷ []

abbrev after_join : State
after_join = joined_state joining enroll_words (bytes " join") [] fresh
