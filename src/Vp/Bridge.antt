-- ===== src/Vp/Bridge.antt =====
-- go/vp/tun2socks.go: the bridge between a TUN device and the SOCKS port of the xray client. gVisor's
-- netstack, the SOCKS dialer and the TUN device are parameters.
pub mod Buffers
pub mod Inbound
pub mod Splice
pub mod Tests
use caravel.Prelude.{
  ℕ, zero, suc, ◌+◌, ℤ, pos, negsuc, Bool, true, false, not, leb, is_int, length, Option, none,
  some, List, [], ◌∷◌, ◌++◌, if◌then◌else◌, Result, ok, err, panic, socks_bridge,
}
use caravel.Prelude.Text.{Text}

-- tunOffset and virtioHeadroom
abbrev pub tun_offset : ℕ
tun_offset = 16

abbrev pub virtio_headroom : ℕ
virtio_headroom = 80

-- A context: whether it is cancelled. A bridge that could not be built has cancelled its own.
abbrev pub Context : Type 0
Context = Option Bool

-- What the bridge asks of the netstack: a stack with its NIC on a channel endpoint of 512 packets and the
-- given MTU, its modes, the default routes, and the handler of SYNs; and at its end, their closing.
pub data StackCall : Type 0 where
  create_nic : ℕ → ℤ → StackCall
  promiscuous_mode : StackCall
  spoofing : StackCall
  default_routes : StackCall
  tcp_forwarder : ℕ → ℕ → StackCall
  cancel : StackCall
  close_endpoint : StackCall
  close_stack : StackCall

-- buildStack, on whether the NIC comes about.
unfoldable pub build_stack : (ℤ → Bool) → ℤ → Result (Unit {0}) × List StackCall
build_stack creates_nic mtu =
    if creates_nic mtu
    then (
      ok tt,
      create_nic 512 mtu ∷ promiscuous_mode ∷ spoofing ∷ default_routes ∷ tcp_forwarder 0 2048 ∷ [],
    )
    else (err socks_bridge, create_nic 512 mtu ∷ [])

-- stop, on a bridge that newTun2Socks returned.
abbrev pub stop : List StackCall
stop = cancel ∷ close_endpoint ∷ close_stack ∷ []

-- newTun2Socks, on whether the SOCKS dialer and the NIC come about; `none` stands for
-- a context that was not made.
unfoldable pub new_tun2socks : (Text → Bool) → (ℤ → Bool) → ℤ → Text → Result (Unit {0}) × Context
unfolding build_stack
new_tun2socks makes_dialer creates_nic mtu socks_addr =
    if not (makes_dialer socks_addr)
    then (err socks_bridge, none)
    else elim (build_stack creates_nic mtu).0 [
      | ok _ ↦ (ok tt, some false)
      | err e ↦ (err e, some true)
      | panic ↦ (panic, none)
    ]

-- What a read of the TUN device comes to: how many packets it has put into the buffers, the sizes
-- array, and the contents of the buffers from the offset on; or an error, since its owner closed it.
pub data TunRead : Type 0 where
  got : ℕ → List ℕ → List Text → TunRead
  failed : TunRead

-- A round of inbound: it finds its context cancelled, or it reads.
pub data Round : Type 0 where
  cancelled : Round
  reads : TunRead → Round

pub data Protocol : Type 0 where
  ipv4 : Protocol
  ipv6 : Protocol

-- How a loop has ended so far.
pub data Ended : Type 0 where
  waiting : Ended
  stopped : Ended
  crashed : Ended

-- What inbound has injected into the netstack, in order, and how it ended.
pub record Run : Type 0 where
  pub injected : List (Protocol × Text)
  pub ended : Ended

-- make([]byte, n) and make([]int, n)
unfoldable pub zeros : ℕ → List ℕ
zeros zero = []
zeros (suc n) = 0 ∷ zeros n

-- The number of buffers of inbound, on the device's BatchSize, and the room in each behind the offset, on
-- the tunnel's MTU.
unfoldable pub batch_of : ℤ → ℕ
batch_of (negsuc n) = 1
batch_of (pos zero) = 1
batch_of (pos (suc n)) = suc n

unfoldable pub room : ℕ → ℕ
room mtu = mtu + virtio_headroom

-- The buffers that inbound makes, behind the offset.
unfoldable pub make_bufs : ℕ → ℕ → List Text
unfolding zeros room
make_bufs zero mtu = []
make_bufs (suc n) mtu = zeros (room mtu) ∷ make_bufs n mtu

-- What the device writes into a slice, whose length stays.
unfoldable pub overwrite : List ℕ → List ℕ → List ℕ
overwrite [] new = []
overwrite (x ∷ old) [] = x ∷ old
overwrite (x ∷ old) (y ∷ new) = y ∷ overwrite old new

unfoldable pub overwrite_all : List Text → List Text → List Text
unfolding overwrite
overwrite_all [] news = []
overwrite_all (b ∷ bufs) [] = b ∷ bufs
overwrite_all (b ∷ bufs) (w ∷ news) = overwrite b w ∷ overwrite_all bufs news

-- What inbound meets in a round: a cancelled context, a failed read, or a read that returns a number of
-- packets and has written their sizes and their bytes.
pub data Meets : Type 0 where
  is_cancelled : Meets
  read_fails : Meets
  delivers : ℕ → List ℕ → List Text → Meets

-- `bufs[i][tunOffset : tunOffset+size]`, which panics beyond the buffer.
unfoldable pub slice : ℕ → Text → Option Text
slice zero buf = some []
slice (suc n) [] = none
slice (suc n) (c ∷ buf) = elim (slice n buf) [ none ↦ none | some s ↦ some (c ∷ s) ]

-- One read, and the loop after it
abbrev pub then_run : List (Protocol × Text) × Bool → Run → Run
then_run (packets, true) r = record { injected = packets ++ r.injected; ended = r.ended }
then_run (packets, false) r = record { injected = packets; ended = crashed }

module _ (ip_version : Text → ℤ) where
  -- The switch on header.IPVersion
  unfoldable pub protocol_of : Text → Option Protocol
  protocol_of packet =
      if is_int (ip_version packet) 4
      then some ipv4
      else if is_int (ip_version packet) 6
      then some ipv6
      else none

  -- InjectInbound of a packet of a known version
  unfoldable pub inject : Text → List (Protocol × Text)
  unfolding protocol_of
  inject packet = elim (protocol_of packet) [ none ↦ [] | some p ↦ (p, packet) ∷ [] ]

  -- The loop over the packets of one read, with whether it came to its end without a panic.
  unfoldable pub inject_batch : ℕ → List ℕ → List Text → List (Protocol × Text) × Bool
  unfolding inject slice
  inject_batch zero sizes bufs = ([], true)
  inject_batch (suc n) [] bufs = ([], false)
  inject_batch (suc n) (size ∷ sizes) [] = ([], false)
  inject_batch (suc n) (size ∷ sizes) (buf ∷ bufs) =
      let (rest, done) = inject_batch n sizes bufs in
      elim (slice size buf) [ none ↦ ([], false) | some packet ↦ (inject packet ++ rest, done) ]

  -- inbound, over the rounds that it has made.
  unfoldable pub inbound : List Round → Run
  unfolding inject_batch
  inbound [] = record { injected = []; ended = waiting }
  inbound (cancelled ∷ _) = record { injected = []; ended = stopped }
  inbound (reads failed ∷ _) = record { injected = []; ended = stopped }
  inbound (reads (got n sizes bufs) ∷ rounds) =
      then_run (inject_batch n sizes bufs) (inbound rounds)

-- The rounds of inbound's loop, on the sizes and the buffers that it reuses.
unfoldable pub rounds_on : List ℕ → List Text → List Meets → List Round
unfolding overwrite_all
rounds_on sizes bufs [] = []
rounds_on sizes bufs (is_cancelled ∷ ms) = cancelled ∷ rounds_on sizes bufs ms
rounds_on sizes bufs (read_fails ∷ ms) = reads failed ∷ rounds_on sizes bufs ms
rounds_on sizes bufs (delivers n ss news ∷ ms) =
    reads (got n (overwrite sizes ss) (overwrite_all bufs news))
    ∷ rounds_on (overwrite sizes ss) (overwrite_all bufs news) ms

-- inbound as a whole, on the device's BatchSize and the tunnel's MTU.
unfoldable pub run_inbound : (Text → ℤ) → ℤ → ℕ → List Meets → Run
unfolding inbound rounds_on make_bufs zeros batch_of
run_inbound ip_version batch mtu ms =
    inbound ip_version (rounds_on (zeros (batch_of batch)) (make_bufs (batch_of batch) mtu) ms)

-- The buffer that outbound writes, with the packet at the offset.
unfoldable pub framed : Text → Text
unfolding zeros
framed data_bytes = zeros tun_offset ++ data_bytes

-- outbound: what it has written, until ReadContext returns nil.
unfoldable pub outbound : List (Option Text) → List Text
unfolding framed
outbound [] = []
outbound (none ∷ _) = []
outbound (some packet ∷ packets) = framed packet ∷ outbound packets

-- What handleTCP does with a SYN: it completes the request, with a reset or without one, closes the
-- connection to the proxy, or hands both connections to splice.
pub data TcpAction : Type 0 where
  complete : Bool → TcpAction
  close_remote : TcpAction
  start_splice : TcpAction

-- handleTCP, on whether the proxy was dialled and the endpoint created.
unfoldable pub handle_tcp : Bool → Bool → List TcpAction
handle_tcp false endpoint = complete true ∷ []
handle_tcp true false = close_remote ∷ complete true ∷ []
handle_tcp true true = complete false ∷ start_splice ∷ []
