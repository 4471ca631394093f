-- ===== src/Core/Connect/Laws.antt =====
-- What Connect and Stop do with the duplicated TUN descriptor.
use mathlib.Core.Path.{subst}
use caravel.Prelude.{
  ℤ, pos, ◌≡◌, ◌≢◌, refl, sym, ap, ◌∙◌, Bool, true, false, arith, Bool-cases, inl, inr, Option,
  List, [], ◌∷◌, Result, ok, err, panic, Error, ok-injective, tun_from_fd,
}
use caravel.Prelude.Text.{Text}
use caravel.Crypto.{Primitives}
use caravel.Disk.{Disk}
use caravel.Profile.Endpoint.{Words}
use caravel.Profile.Store.{Store}
use caravel.Profile.Tunnel.{tunnel, xray_tunnel}
use caravel.Profile.Types
use caravel.Profile.Types.{
  ProfileJson, ClientProfile, Node, protocol_amnezia_wg, protocol_xray_reality,
}
use caravel.Core.Resolve.{resolve, mtu_over}
use caravel.Core.Resolve.Laws.{xray_tunnel-mtu, tunnel-mtu, mtu_over-default}
use caravel.Core.Connect.{
  Session, Platform, started, on_tun, start_xray, start_awg, after_dup, connect_resolved, connect,
  stop, config_of, xray_config_of,
}
use caravel.Vp.Device.{Event, Io, dup_fd, open_dev, is_held, up, up_with}
use caravel.Vp.Engine.{Config, uapi}
use caravel.Vp.Xray.{up_xray}

started-eq-ok :
    (s0 s : Session) (r : Result (Unit {0}) × List Event)
    → (started s0 r).0 ≡ ok s
    → (s0 ≡ s) × ((started s0 r).1 ≡ r.1) × (r.0 ≡ ok tt)
started-eq-ok s0 s (ok _, events) h = (ok-injective s0 s h, refl, refl)
started-eq-ok s0 s (err e, events) h = cc
started-eq-ok s0 s (panic, events) h = cc

started-eq-err :
    (s0 : Session) (r : Result (Unit {0}) × List Event) (e : Error)
    → (started s0 r).0 ≡ err e
    → is_held (started s0 r).1 ≡ false
started-eq-err s0 (ok _, events) e h = cc
started-eq-err s0 (err x, events) e h = refl
started-eq-err s0 (panic, events) e h = cc

-- An engine that does nothing to the descriptor when it starts.
abbrev Keeps : Io (Unit {0}) → Type 0
Keeps run = (events : List Event) → (run events).0 ≡ ok tt → (run events).1 ≡ events

on_tun-eq-ok :
    (makes_tun : Bool) (mtu : ℤ) (run : Io (Unit {0})) (s0 s : Session) (events : List Event)
    → Keeps run
    → (on_tun makes_tun mtu run s0 events).0 ≡ ok s
    → (s0 ≡ s) × ((on_tun makes_tun mtu run s0 events).1 ≡ open_dev mtu ∷ events)
unfolding on_tun
on_tun-eq-ok true mtu run s0 s events keeps h =
    let (same, after, ran) = started-eq-ok s0 s (run (open_dev mtu ∷ events)) h in
    (same, after ∙ keeps (open_dev mtu ∷ events) ran)
on_tun-eq-ok false mtu run s0 s events keeps h = cc

err-injective : (a b : Error) → ◌≡◌ {A = Result Session} (err a) (err b) → a ≡ b
err-injective a b h = cc

on_tun-eq-err :
    (makes_tun : Bool) (mtu : ℤ) (run : Io (Unit {0})) (s0 : Session) (events : List Event)
    (e : Error)
    → (on_tun makes_tun mtu run s0 events).0 ≡ err e
    → is_held (on_tun makes_tun mtu run s0 events).1 ≡ true
    → e ≡ tun_from_fd
unfolding on_tun
on_tun-eq-err true mtu run s0 events e h held =
    let closed = started-eq-err s0 (run (open_dev mtu ∷ events)) e h in
    let apart : true ≡ false = sym held ∙ closed in cc
on_tun-eq-err false mtu run s0 events e h held = sym (err-injective tun_from_fd e h)

-- What a successful Connect has done, and what its Stop leaves.
abbrev pub IsUp : Session → List Event → Type 0
IsUp s events = (events ≡ open_dev (pos 1420) ∷ dup_fd ∷ []) × (is_held (stop s events).1 ≡ s.xray)

IsUp-of_parts :
    (s0 s : Session) (events : List Event) (mtu : ℤ)
    → s0 ≡ s
    → events ≡ open_dev mtu ∷ dup_fd ∷ []
    → mtu ≡ pos 1420
    → is_held (stop s0 (open_dev (pos 1420) ∷ dup_fd ∷ [])).1 ≡ s0.xray
    → IsUp s events
IsUp-of_parts s0 s events mtu same e m held =
    let e' : events ≡ open_dev (pos 1420) ∷ dup_fd ∷ [] =
      e ∙ ap (λ (x : ℤ). open_dev x ∷ dup_fd ∷ []) m in
    (
      e',
      subst (λ (x : Session). is_held (stop x events).1 ≡ x.xray) same
          (ap (λ (l : List Event). is_held (stop s0 l).1) e' ∙ held),
    )

module _ (F : Platform) where
  up_with-Keeps : (r : Result Text) → Keeps (up_with F.decode_base64 F.awg r)
  unfolding up_with
  up_with-Keeps (err e) events h = cc
  up_with-Keeps panic events h = cc
  up_with-Keeps (ok text) events h = ground arith

  up-Keeps : (cfg : Config) → Keeps (up F.decode_base64 F.awg cfg)
  unfolding up
  up-Keeps cfg = up_with-Keeps (uapi F.decode_base64 cfg)

  start_xray-IsUp :
      (r : Result Types.XrayTunnel) (s : Session)
      → ((t : Types.XrayTunnel) → r ≡ ok t → t.mtu ≡ pos 1420)
      → (start_xray F r (dup_fd ∷ [])).0 ≡ ok s
      → IsUp s (start_xray F r (dup_fd ∷ [])).1
  unfolding start_xray stop
  start_xray-IsUp (err e) s m h = cc
  start_xray-IsUp panic s m h = cc
  start_xray-IsUp (ok t) s m h =
      let mtu : ℤ = mtu_over t.mtu (pos 1420) in
      let s0 : Session = record {
        awg = false;
        xray = true;
        proto = protocol_xray_reality;
        endpoint = t.endpoint;
      } in
      let (same, after) =
        on_tun-eq-ok (F.makes_tun mtu) mtu
          (λ held. (up_xray F.xray_json F.xray (xray_config_of t mtu), held)) s0 s (dup_fd ∷ [])
          (λ events e. refl) h in
      IsUp-of_parts s0 s _ mtu same after (mtu_over-default t.mtu (m t refl)) refl

  start_awg-IsUp :
      (r : Result Types.Tunnel) (s : Session)
      → ((t : Types.Tunnel) → r ≡ ok t → t.mtu ≡ pos 1420)
      → (start_awg F r (dup_fd ∷ [])).0 ≡ ok s
      → IsUp s (start_awg F r (dup_fd ∷ [])).1
  unfolding start_awg stop
  start_awg-IsUp (err e) s m h = cc
  start_awg-IsUp panic s m h = cc
  start_awg-IsUp (ok t) s m h =
      let mtu : ℤ = mtu_over t.mtu (pos 1420) in
      let s0 : Session = record {
        awg = true;
        xray = false;
        proto = protocol_amnezia_wg;
        endpoint = t.endpoint;
      } in
      let (same, after) =
        on_tun-eq-ok (F.makes_tun mtu) mtu (up F.decode_base64 F.awg (config_of t)) s0 s
          (dup_fd ∷ []) (up-Keeps (config_of t)) h in
      IsUp-of_parts s0 s _ mtu same after (mtu_over-default t.mtu (m t refl)) refl

  start_xray-eq-err :
      (r : Result Types.XrayTunnel) (e : Error)
      → (start_xray F r (dup_fd ∷ [])).0 ≡ err e
      → is_held (start_xray F r (dup_fd ∷ [])).1 ≡ true
      → e ≡ tun_from_fd
  unfolding start_xray
  start_xray-eq-err (err x) e h held = cc
  start_xray-eq-err panic e h held = cc
  start_xray-eq-err (ok t) e h held =
      let mtu : ℤ = mtu_over t.mtu (pos 1420) in
      on_tun-eq-err (F.makes_tun mtu) mtu
        (λ io. (up_xray F.xray_json F.xray (xray_config_of t mtu), io))
        (record { awg = false; xray = true; proto = protocol_xray_reality; endpoint = t.endpoint })
        (dup_fd ∷ []) e h held

  start_awg-eq-err :
      (r : Result Types.Tunnel) (e : Error)
      → (start_awg F r (dup_fd ∷ [])).0 ≡ err e
      → is_held (start_awg F r (dup_fd ∷ [])).1 ≡ true
      → e ≡ tun_from_fd
  unfolding start_awg
  start_awg-eq-err (err x) e h held = cc
  start_awg-eq-err panic e h held = cc
  start_awg-eq-err (ok t) e h held =
      let mtu : ℤ = mtu_over t.mtu (pos 1420) in
      on_tun-eq-err (F.makes_tun mtu) mtu (up F.decode_base64 F.awg (config_of t))
        (record { awg = true; xray = false; proto = protocol_amnezia_wg; endpoint = t.endpoint })
        (dup_fd ∷ []) e h held

module _ (P : Primitives) (J : ProfileJson) (F : Platform) where
  after_dup-IsUp :
      (dups : Bool) (w : Words) (n : Node) (xray : Bool) (s : Session)
      → (after_dup J F dups w n xray).0 ≡ ok s
      → IsUp s (after_dup J F dups w n xray).1
  unfolding after_dup
  after_dup-IsUp false w n xray s h = cc
  after_dup-IsUp true w n true s h =
      start_xray-IsUp F (xray_tunnel J w n) s (xray_tunnel-mtu P J w n) h
  after_dup-IsUp true w n false s h = start_awg-IsUp F (tunnel J w n) s (tunnel-mtu P J w n) h

  connect_resolved-IsUp :
      (w : Words) (r : Result (ClientProfile × Node × Bool)) (s : Session)
      → (connect_resolved J F w r).0 ≡ ok s
      → IsUp s (connect_resolved J F w r).1
  unfolding connect_resolved
  connect_resolved-IsUp w (err e) s h = cc
  connect_resolved-IsUp w panic s h = cc
  connect_resolved-IsUp w (ok (cp, n, xray)) s h = after_dup-IsUp F.dups w n xray s h

  after_dup-eq-err :
      (dups : Bool) (w : Words) (n : Node) (xray : Bool) (e : Error)
      → (after_dup J F dups w n xray).0 ≡ err e
      → is_held (after_dup J F dups w n xray).1 ≡ true
      → e ≡ tun_from_fd
  unfolding after_dup
  after_dup-eq-err false w n xray e h held = cc
  after_dup-eq-err true w n true e h held = start_xray-eq-err F (xray_tunnel J w n) e h held
  after_dup-eq-err true w n false e h held = start_awg-eq-err F (tunnel J w n) e h held

  connect_resolved-eq-err :
      (w : Words) (r : Result (ClientProfile × Node × Bool)) (e : Error)
      → (connect_resolved J F w r).0 ≡ err e
      → is_held (connect_resolved J F w r).1 ≡ true
      → e ≡ tun_from_fd
  unfolding connect_resolved
  connect_resolved-eq-err w (err x) e h held = cc
  connect_resolved-eq-err w panic e h held = cc
  connect_resolved-eq-err w (ok (cp, n, xray)) e h held = after_dup-eq-err F.dups w n xray e h held

  -- A Connect that returns a session has duplicated the descriptor once and given it to a TUN device
  -- with the MTU 1420, whatever the profile's own MTU is; after Stop the descriptor is closed where the
  -- session ran AmneziaWG, and still open where it ran XRay.
  pub connect-IsUp :
      (s : Option Store) (d : Disk) (w : Words) (bundle_name profile_name proto_pref : Text)
      (session : Session)
      → (connect P J F s d w bundle_name profile_name proto_pref).0 ≡ ok session
      → IsUp session (connect P J F s d w bundle_name profile_name proto_pref).1
  unfolding connect
  connect-IsUp s d w bundle_name profile_name proto_pref session h =
      connect_resolved-IsUp w (resolve P J s d bundle_name profile_name proto_pref) session h

  -- A Connect that fails for any other reason than that no TUN device could be made of the duplicated
  -- descriptor leaves it closed.
  pub connect-is_held :
      (s : Option Store) (d : Disk) (w : Words) (bundle_name profile_name proto_pref : Text)
      (e : Error)
      → e ≢ tun_from_fd
      → (connect P J F s d w bundle_name profile_name proto_pref).0 ≡ err e
      → is_held (connect P J F s d w bundle_name profile_name proto_pref).1 ≡ false
  unfolding connect
  connect-is_held s d w bundle_name profile_name proto_pref e other h =
      let r = resolve P J s d bundle_name profile_name proto_pref in
      elim (Bool-cases (is_held (connect_resolved J F w r).1)) [
        | inl held ↦ absurd (other (connect_resolved-eq-err w r e h held))
        | inr closed ↦ closed
      ]
