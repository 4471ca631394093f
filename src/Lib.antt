-- ===== src/Lib.antt =====
-- caravel: the PharosVPN client core of go/, as a shallow embedding with its theorems.
--
-- The program. A device is enrolled with a join link (go/enroll): it makes its keys, claims a
-- one-time ticket through a relay, and keeps the resulting `.pharosid` bundle (go/deviceid). With
-- the bundle it fetches its sealed profile document through the relay (go/sync), verifies and
-- decrypts it on the device (go/crypto), and stores it (go/profile/store.go) beside a marker and the
-- bundle (go/core.go). A stored document is opened (go/profile/pharos.go), a connection and a node
-- of it are selected, and a protocol entry of the node is resolved into what an engine dials.
--
-- The files. Prelude and its children: texts as lists of bytes, Boolean tests, the results of Go
-- calls (a value, an error or a panic), lists, decimal and hexadecimal texts. Json: encoding/json as
-- a codec for each type. Disk: the store's directory and what package os does with it.
--   Crypto (go/crypto/keys.go, enroll.go, csr.go): DeriveKEK is derive_kek, OpenSealed is open_sealed,
--   WrapPrivateKey is wrap_private_key, and so on by the same words.
--   DeviceId (go/deviceid/deviceid.go): Bundle, Marshal, Parse, EncryptionPrivateKey.
--   Enroll.Link (go/enroll/link.go), Enroll.Fingerprint, Enroll.Pin and Enroll.Claim
--   (go/enroll/claim.go): ParseLink, normalizeFingerprint, relayPin.verify, claimRPC, Claim.
--   Profile.Types, Parse, Select, Endpoint, HostPort, Tunnel (go/profile/pharos.go): Parse, Select,
--   Node, pickEndpoint, Tunnel and XRayTunnel. Profile.Store (go/profile/store.go): the store as a
--   function of the disk.
--   Sync.Calls, Sync.Open, Sync (go/sync/client.go): a session is a function from the calls made so
--   far to a result and the calls made by then; Authenticate is log_in, EnrollKeys is enroll,
--   GetProfile is pull.
--   Core.Names, Core.Sidecars, Core, Core.Resolve, Core.Connect, Core.Listing, Core.Status (go/core.go):
--   sanitizeName, purgeCloud, syncBundle, SyncAndStore, Enroll, Logout, resolve, Prepare, Connect,
--   Stop, ListProfiles, ControllerStatus, Reachable (probe) and Session.Stats.
--   Vp.Engine and Vp.Engine.Settings (go/vp/engine.go): Config.uapi as the rendering of a list of
--   settings, and keyHex; Vp.Device: Up; Vp.Stats: Tunnel.Stats on the text that the device returns;
--   Vp.Tunnel: Close, Stats, IpcHandle and Wait as steps of goroutines over the field dev.
--   Vp.Xray and Vp.XrayTunnel (go/vp/xray.go): clientJSON, UpXRay, Close and Stats.
--   Vp.Bridge (go/vp/tun2socks.go): newTun2Socks, buildStack, inbound and outbound as functions of
--   what the device and the netstack deliver (run_inbound with inbound's buffers), handleTCP; Vp.Bridge.Splice: splice and the counters
--   as steps of the goroutines of all connections.
--   Routes (go/cmd/caravel/connect_linux.go): connect is connect_routes, configureNetwork is
--   configure_network, Close is close_routes, as functions of the commands that were run so far.
--   Cli (go/cmd/caravel/main.go, with cmdConnect of connect_linux.go and connect_other.go): dispatch
--   and the subcommands by the same words, as functions of the arguments and a State, the disk, the
--   routing commands and the events of the TUN device; Cli.Process: what surrounds a command;
--   Cli.Flags: package flag.
--   The children called Laws, Undo, Order, Seal, Wrap, Fetch, Purge, Logout, Reading, Enrolling,
--   Succeeding, Refinement, Journey, Inbound, Buffers, Values, Checks, Steps, Listing (of Profile.Store),
--   Progress, Bounds, Connecting, Teardown and Removal hold proofs.
--   Samples holds concrete ciphers, codecs, documents and services, and the children called Tests and
--   FileTests run the model on them.
--
-- Parameters. The ciphers, encoding/json, encoding/pem, crypto/x509, crypto/tls, net/url, the random
-- source, the relay and the controller are arguments of the definitions. What is relied on is in the
-- records IsLawful, RoundTrips, EnvelopeLaws and MarkerLaws, which Samples and the tests fill.
--
-- State. Files are an association list with sets of names that the system refuses to write or remove
-- and to read; a store operation returns the disk after it. Names and texts are ASCII where Go's
-- function depends on the encoding (TrimSpace, ToLower, strings.Map). The digits of itoa have as many
-- rounds as the number has units, which is more than it has digits.
--
-- Goroutines. Each lock region, atomic Add, channel operation and call of a device is one step, any
-- goroutine may make the next one, and a theorem is about every order. An int64 is its bit pattern
-- below 2 ^ 64, and its sums wrap around.
--
-- Not modelled: deadlines and connections' closing in go/sync, the bytes that a spliced connection
-- carries, the serving of one UAPI client, the printed texts of go/cmd/caravel, and the generated go/gen:
-- third-party engines, printing, and JSON texts of views that are modelled. `rm` of a name with a slash
-- in it reaches a file outside the store's directory, which Disk does not hold; and a store directory
-- whose own name is a well-formed glob pattern makes List look in other directories.
pub mod Prelude
pub mod Json
pub mod Disk
pub mod Crypto
pub mod DeviceId
pub mod Enroll
pub mod Profile
pub mod Sync
pub mod Core
pub mod Vp
pub mod Routes
pub mod Cli
pub mod Samples
