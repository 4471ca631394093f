-- ===== src/Routes/Laws.antt =====
-- The undo list of go/cmd/caravel/connect_linux.go against the commands that were run.
use mathlib.Core.List.{reverse, reverse_aux, append_assoc, append_cancel_right, map-append}
use caravel.Prelude.{
  ℤ, pos, ◌≡◌, refl, sym, ap, ◌∙◌, Bool, true, false, Option, none, some, List, [], ◌∷◌, ◌++◌, map,
  Result, ok, err, panic,
}
use caravel.Prelude.Text.{Text}
use caravel.Profile.Types.{Tunnel}
use caravel.Core.Connect.{config_of}
use caravel.Core.Resolve.{mtu_over}
use caravel.Vp.Device.{Event, up, open_dev}
use caravel.Routes.{
  Command, route_del, Routes, Linux, configure_network, delete_routes, close_routes, finish,
  after_up, on_device, connect_routes,
}
use caravel.Routes.Undo.{added, Owned, configure_network-Keeps}

abbrev pub commands : List (Command × Bool) → List Command
commands = map (λ e. e.0)

module _ (L : Linux) where
  delete_routes-commands :
      (ds : List Text) (ran : List (Command × Bool))
      → commands (delete_routes L ds ran) ≡ reverse_aux (map route_del ds) (commands ran)
  unfolding delete_routes
  delete_routes-commands [] ran = refl
  delete_routes-commands (d ∷ ds) ran =
      delete_routes-commands ds ((route_del d, L.accepts ran (route_del d)) ∷ ran)

-- The commands of Close: each route of the list is deleted, the last one first.
reverse_aux-map :
    {A B : Type 0} (f : A → B) (xs acc : List A) (ys : List B)
    → reverse_aux (map f (reverse_aux xs acc)) ys ≡ reverse_aux (map f acc) (map f xs ++ ys)
reverse_aux-map f [] acc ys = refl
reverse_aux-map f (x ∷ xs) acc ys = reverse_aux-map f xs (x ∷ acc) ys

close_routes-commands :
    (L : Linux) (r : Routes)
    → commands (close_routes L r).ran ≡ map route_del r.undo ++ commands r.ran
unfolding close_routes
close_routes-commands L r =
    delete_routes-commands L (reverse r.undo) r.ran
    ∙ reverse_aux-map route_del r.undo [] (commands r.ran)

-- A log that goes on after another one by exactly the deletions of the routes that the earlier one has
-- set, the last one first.
abbrev pub Undone : List (Command × Bool) → List (Command × Bool) → Type 0
Undone ran all =
    (dels : List (Command × Bool)) × (all ≡ dels ++ ran)
    × (commands dels ≡ map route_del (added ran))

delete_routes-append :
    (L : Linux) (ds : List Text) (ran : List (Command × Bool))
    → (dels : List (Command × Bool)) × (delete_routes L ds ran ≡ dels ++ ran)
unfolding delete_routes
delete_routes-append L [] ran = ([], refl)
delete_routes-append L (d ∷ ds) ran =
    let e : Command × Bool = (route_del d, L.accepts ran (route_del d)) in
    let (dels, h) = delete_routes-append L ds (e ∷ ran) in
    (dels ++ e ∷ [], h ∙ sym (append_assoc dels (e ∷ []) ran))

-- What is true of the routes after a connect: Close has undone them where it failed, and would undo
-- them where not.
abbrev pub IsSettled : Linux → Result Text → Routes → Type 0
IsSettled L (ok _) r = Undone r.ran (close_routes L r).ran
IsSettled L (err _) r = (ran : List (Command × Bool)) × Undone ran r.ran
IsSettled L panic r = Undone r.ran (close_routes L r).ran

close_routes-Undone : (L : Linux) (r : Routes) → Owned r → Undone r.ran (close_routes L r).ran
unfolding close_routes
close_routes-Undone L r own =
    let (dels, h) = delete_routes-append L (reverse r.undo) r.ran in
    let deleted =
      sym (map-append (λ e. e.0) dels r.ran) ∙ (ap commands (sym h) ∙ close_routes-commands L r) in
    (
      dels,
      h,
      append_cancel_right (commands dels) (map route_del r.undo) (commands r.ran) deleted
          ∙ ap (map route_del) own,
    )

module _ (L : Linux) where
  finish-IsSettled :
      (iface : Text) (events : List Event) (k : Result (Unit {0}) × Routes)
      → Owned k.1
      → IsSettled L (finish L iface events k).0 (finish L iface events k).1
  unfolding finish
  finish-IsSettled iface events (ok _, r) own = close_routes-Undone L r own
  finish-IsSettled iface events (err e, r) own = (r.ran, close_routes-Undone L r own)
  finish-IsSettled iface events (panic, r) own = close_routes-Undone L r own

  after_up-IsSettled :
      (t : Tunnel) (iface : Text) (mtu : ℤ) (full : Bool) (u : Result (Unit {0}) × List Event)
      → IsSettled L (after_up L t iface mtu full u).0 (after_up L t iface mtu full u).1
  unfolding after_up
  after_up-IsSettled t iface mtu full (err e, events) = ([], ([], refl, refl))
  after_up-IsSettled t iface mtu full (panic, events) =
      close_routes-Undone L (record { ran = []; undo = [] }) refl
  after_up-IsSettled t iface mtu full (ok _, events) =
      finish-IsSettled iface events
        (configure_network L t iface mtu full (record { ran = []; undo = [] }))
        (configure_network-Keeps L t iface mtu full (record { ran = []; undo = [] }) refl)

  on_device-IsSettled :
      (t : Tunnel) (mtu : ℤ) (full makes_tun : Bool) (name : Option Text)
      → IsSettled L
          (on_device L t mtu full makes_tun name).0
          (on_device L t mtu full makes_tun name).1
  unfolding on_device
  on_device-IsSettled t mtu full false name = ([], ([], refl, refl))
  on_device-IsSettled t mtu full true none = ([], ([], refl, refl))
  on_device-IsSettled t mtu full true (some iface) =
      after_up-IsSettled t iface mtu full
        (up L.decode_base64 L.awg (config_of t) (open_dev mtu ∷ []))

-- Whichever commands the system accepts, after a connect that fails the last commands that were run
-- delete each route that an accepted command before them set, each once and the last one first, and
-- they are no others. After any other connect Close runs exactly those deletions.
pub connect_routes-IsSettled :
    (L : Linux) (t : Tunnel) (full : Bool)
    → IsSettled L (connect_routes L t full).0 (connect_routes L t full).1
unfolding connect_routes
connect_routes-IsSettled L t full =
    on_device-IsSettled L t (mtu_over t.mtu (pos 1420)) full
      (L.makes_tun (mtu_over t.mtu (pos 1420))) L.dev_name
