-- ===== src/Vp/Bridge/Inbound.antt =====
-- What inbound of go/vp/tun2socks.go injects into the netstack.
use mathlib.Core.List.{append_assoc}
use caravel.Prelude.{
  ℕ, ◌≡◌, ◌≢◌, ℤ, pos, negsuc, refl, sym, ap, true, false, is_int, length, Option, none, some, List,
  [], ◌∷◌, ◌++◌, arith,
}
use caravel.Prelude.Text.{Text}
use caravel.Vp.Bridge.{
  Protocol, ipv4, ipv6, got, Round, reads, slice, protocol_of, inject, inject_batch, inbound,
}

-- A packet as it lies in a buffer, with what an earlier read has left behind it, and its protocol.
pub record Frame : Type 0 where
  pub packet : Text
  pub junk : Text
  pub protocol : Option Protocol

-- A read: the frames that it delivers, and the sizes and buffers of the rest of the batch.
pub record Delivery : Type 0 where
  pub frames : List Frame
  pub spare_sizes : List ℕ
  pub spare_bufs : List Text

abbrev pub sizes_of : List Frame → List ℕ → List ℕ
sizes_of [] spare = spare
sizes_of (f ∷ fs) spare = length f.packet ∷ sizes_of fs spare

abbrev pub bufs_of : List Frame → List Text → List Text
bufs_of [] spare = spare
bufs_of (f ∷ fs) spare = (f.packet ++ f.junk) ∷ bufs_of fs spare

abbrev pub read_of : Delivery → Round
read_of d =
    reads (got (length d.frames) (sizes_of d.frames d.spare_sizes) (bufs_of d.frames d.spare_bufs))

abbrev pub rounds_of : List Delivery → List Round → List Round
rounds_of [] last = last
rounds_of (d ∷ ds) last = read_of d ∷ rounds_of ds last

-- The frames that have a protocol of the netstack, each with it.
abbrev pub known : List Frame → List (Protocol × Text)
known [] = []
known (f ∷ fs) = elim f.protocol [ none ↦ known fs | some p ↦ (p, f.packet) ∷ known fs ]

abbrev pub all_known : List Delivery → List (Protocol × Text)
all_known [] = []
all_known (d ∷ ds) = known d.frames ++ all_known ds

slice-append : (p junk : Text) → slice (length p) (p ++ junk) ≡ some p
unfolding slice
slice-append [] junk = refl
slice-append (c ∷ p) junk = rw (slice-append p junk) refl

is_int-ne : (z : ℤ) (n : ℕ) → z ≢ pos n → is_int z n ≡ false
is_int-ne (pos k) n h = ground arith
is_int-ne (negsuc k) n h = refl

module _ (ip_version : Text → ℤ) where
  -- A frame's protocol is the one of its version number.
  abbrev pub HasVersion : Option Protocol → Text → Type 0
  HasVersion (some ipv4) packet = ip_version packet ≡ pos 4
  HasVersion (some ipv6) packet = ip_version packet ≡ pos 6
  HasVersion none packet = (ip_version packet ≢ pos 4) × (ip_version packet ≢ pos 6)

  abbrev pub HaveVersions : List Frame → Type 0
  HaveVersions [] = Unit {0}
  HaveVersions (f ∷ fs) = HasVersion f.protocol f.packet × HaveVersions fs

  abbrev pub AllHaveVersions : List Delivery → Type 0
  AllHaveVersions [] = Unit {0}
  AllHaveVersions (d ∷ ds) = HaveVersions d.frames × AllHaveVersions ds

  protocol_of-HasVersion :
      (p : Option Protocol) (packet : Text)
      → HasVersion p packet
      → protocol_of ip_version packet ≡ p
  unfolding protocol_of
  protocol_of-HasVersion (some ipv4) packet h = rw h refl
  protocol_of-HasVersion (some ipv6) packet h = rw h refl
  protocol_of-HasVersion none packet (not_4, not_6) =
      rw (is_int-ne (ip_version packet) 4 not_4, is_int-ne (ip_version packet) 6 not_6) refl

  inject-HasVersion :
      (p : Option Protocol) (packet : Text) (rest : List (Protocol × Text))
      → HasVersion p packet
      → inject ip_version packet ++ rest ≡ elim p [ none ↦ rest | some q ↦ (q, packet) ∷ rest ]
  unfolding inject
  inject-HasVersion (some ipv4) packet rest h =
      rw (protocol_of-HasVersion (some ipv4) packet h, inject) refl
  inject-HasVersion (some ipv6) packet rest h =
      rw (protocol_of-HasVersion (some ipv6) packet h, inject) refl
  inject-HasVersion none packet rest h = rw (protocol_of-HasVersion none packet h, inject) refl

  inject_batch-frames :
      (fs : List Frame) (sizes : List ℕ) (bufs : List Text)
      → HaveVersions fs
      → inject_batch ip_version (length fs) (sizes_of fs sizes) (bufs_of fs bufs) ≡ (known fs, true)
  unfolding inject_batch
  inject_batch-frames [] sizes bufs h = refl
  inject_batch-frames (f ∷ fs) sizes bufs (h, hs) =
      rw (slice-append f.packet f.junk, inject_batch-frames fs sizes bufs hs, inject_batch)
        (ap (λ (l : List (Protocol × Text)). (l, true))
          (inject-HasVersion f.protocol f.packet (known fs) h))

  -- inbound injects, in the order of the reads and of the buffers in each read, exactly the packets of
  -- version 4 and 6, each with its protocol and without what lies behind it in its buffer. It then does
  -- with the rounds after these what it would have done at the start.
  pub inbound-frames :
      (ds : List Delivery) (last : List Round)
      → AllHaveVersions ds
      → inbound ip_version (rounds_of ds last) ≡ record {
        injected = all_known ds ++ (inbound ip_version last).injected;
        ended = (inbound ip_version last).ended;
      }
  unfolding inbound
  inbound-frames [] last h = refl
  inbound-frames (d ∷ ds) last (h, hs) =
      rw (inject_batch-frames d.frames d.spare_sizes d.spare_bufs h, inbound-frames ds last hs)
        (ap
          (λ (l : List (Protocol × Text)). record {
            injected = l;
            ended = (inbound ip_version last).ended;
          })
          (sym (append_assoc (known d.frames) (all_known ds) (inbound ip_version last).injected)))
