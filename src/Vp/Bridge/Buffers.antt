-- ===== src/Vp/Bridge/Buffers.antt =====
-- inbound of go/vp/tun2socks.go stays within the buffers that it has made.
use caravel.Prelude.{
  ℕ, zero, suc, ◌≤◌, ◌≡◌, ◌≢◌, ◌+◌, ◌⊎◌, inl, inr, ℤ, pos, negsuc, pos_part, refl, sym, ap, ◌∙◌,
  Bool, true, false, length, some, List, [], ◌∷◌, arith,
}
use caravel.Prelude.Text.{Text}
use caravel.Vp.Bridge.{
  Protocol, crashed, Run, batch_of, room, zeros, make_bufs, overwrite, overwrite_all, Meets,
  is_cancelled, read_fails, delivers, slice, inject_batch, then_run, inbound, rounds_on,
  run_inbound,
}

-- Numbers up to a bound, and texts of one length.
abbrev pub AllUpTo : ℕ → List ℕ → Type 0
AllUpTo k [] = Unit {0}
AllUpTo k (n ∷ ns) = (n ≤ k) × AllUpTo k ns

abbrev pub AllSized : ℕ → List Text → Type 0
AllSized k [] = Unit {0}
AllSized k (b ∷ bufs) = (length b ≡ k) × AllSized k bufs

-- What the device does, by its documentation: it returns no more packets than its batch size, or than the
-- one buffer of a device without a batch size, and no packet is longer than the MTU and 80 bytes of
-- framing.
abbrev pub Delivers : ℤ → ℕ → List Meets → Type 0
Delivers batch mtu [] = Unit {0}
Delivers batch mtu (is_cancelled ∷ ms) = Delivers batch mtu ms
Delivers batch mtu (read_fails ∷ ms) = Delivers batch mtu ms
Delivers batch mtu (delivers n ss news ∷ ms) =
    ((n ≤ pos_part batch) ⊎ (n ≤ 1)) × AllUpTo (mtu + 80) ss × Delivers batch mtu ms

-- The sizes and the buffers that a loop may have.
pub record Held (batch : ℤ) (mtu : ℕ) (sizes : List ℕ) (bufs : List Text) : Type 0 where
  pub size_count : length sizes ≡ batch_of batch
  pub buf_count : length bufs ≡ batch_of batch
  pub sizes_fit : AllUpTo (mtu + 80) sizes
  pub bufs_fit : AllSized (mtu + 80) bufs

length-zeros : (n : ℕ) → length (zeros n) ≡ n
unfolding zeros
length-zeros zero = refl
length-zeros (suc n) = ap suc (length-zeros n)

zeros-AllUpTo : (k n : ℕ) → AllUpTo k (zeros n)
unfolding zeros
zeros-AllUpTo k zero = tt
zeros-AllUpTo k (suc n) = (omega arith, zeros-AllUpTo k n)

length-make_bufs : (n mtu : ℕ) → length (make_bufs n mtu) ≡ n
unfolding make_bufs
length-make_bufs zero mtu = refl
length-make_bufs (suc n) mtu = ap suc (length-make_bufs n mtu)

make_bufs-AllSized : (n mtu : ℕ) → AllSized (mtu + 80) (make_bufs n mtu)
unfolding make_bufs room
make_bufs-AllSized zero mtu = tt
make_bufs-AllSized (suc n) mtu = (length-zeros (mtu + 80), make_bufs-AllSized n mtu)

length-overwrite : (old new : List ℕ) → length (overwrite old new) ≡ length old
unfolding overwrite
length-overwrite [] new = refl
length-overwrite (x ∷ old) [] = refl
length-overwrite (x ∷ old) (y ∷ new) = ap suc (length-overwrite old new)

overwrite-AllUpTo :
    (k : ℕ) (old new : List ℕ) → AllUpTo k old → AllUpTo k new → AllUpTo k (overwrite old new)
unfolding overwrite
overwrite-AllUpTo k [] new h g = tt
overwrite-AllUpTo k (x ∷ old) [] h g = h
overwrite-AllUpTo k (x ∷ old) (y ∷ new) (_, h) (e, g) = (e, overwrite-AllUpTo k old new h g)

length-overwrite_all : (bufs news : List Text) → length (overwrite_all bufs news) ≡ length bufs
unfolding overwrite_all
length-overwrite_all [] news = refl
length-overwrite_all (b ∷ bufs) [] = refl
length-overwrite_all (b ∷ bufs) (w ∷ news) = ap suc (length-overwrite_all bufs news)

overwrite_all-AllSized :
    (k : ℕ) (bufs news : List Text) → AllSized k bufs → AllSized k (overwrite_all bufs news)
unfolding overwrite_all
overwrite_all-AllSized k [] news h = tt
overwrite_all-AllSized k (b ∷ bufs) [] h = h
overwrite_all-AllSized k (b ∷ bufs) (w ∷ news) (e, h) =
    (length-overwrite b w ∙ e, overwrite_all-AllSized k bufs news h)

Held-next :
    (batch : ℤ) (mtu : ℕ) (sizes : List ℕ) (bufs : List Text) (ss : List ℕ) (news : List Text)
    → Held batch mtu sizes bufs
    → AllUpTo (mtu + 80) ss
    → Held batch mtu (overwrite sizes ss) (overwrite_all bufs news)
Held-next batch mtu sizes bufs ss news h g = record {
  size_count = length-overwrite sizes ss ∙ h.size_count;
  buf_count = length-overwrite_all bufs news ∙ h.buf_count;
  sizes_fit = overwrite-AllUpTo (mtu + 80) sizes ss h.sizes_fit g;
  bufs_fit = overwrite_all-AllSized (mtu + 80) bufs news h.bufs_fit;
}

made-Held :
    (batch : ℤ) (mtu : ℕ) → Held batch mtu (zeros (batch_of batch)) (make_bufs (batch_of batch) mtu)
made-Held batch mtu = record {
  size_count = length-zeros (batch_of batch);
  buf_count = length-make_bufs (batch_of batch) mtu;
  sizes_fit = zeros-AllUpTo (mtu + 80) (batch_of batch);
  bufs_fit = make_bufs-AllSized (batch_of batch) mtu;
}

-- There is a buffer for each packet.
batch_of-enough : (batch : ℤ) (n : ℕ) → (n ≤ pos_part batch) ⊎ (n ≤ 1) → n ≤ batch_of batch
unfolding batch_of
batch_of-enough (negsuc k) n (inl h) = omega (arith, h)
batch_of-enough (negsuc k) n (inr h) = h
batch_of-enough (pos zero) n (inl h) = omega (arith, h)
batch_of-enough (pos zero) n (inr h) = h
batch_of-enough (pos (suc k)) n (inl h) = h
batch_of-enough (pos (suc k)) n (inr h) = omega (arith, h)

-- A slice within a buffer is there.
slice-within : (n : ℕ) (buf : Text) → n ≤ length buf → (s : Text) × (slice n buf ≡ some s)
unfolding slice
slice-within zero buf h = ([], refl)
slice-within (suc n) [] h = absurd (omega arith)
slice-within (suc n) (c ∷ buf) h =
    let (s, e) = slice-within n buf (omega arith) in (c ∷ s, rw e refl)

then_run-ended :
    (c : List (Protocol × Text) × Bool) (r : Run) → c.1 ≡ true → (then_run c r).ended ≡ r.ended
then_run-ended (packets, true) r h = refl
then_run-ended (packets, false) r h = cc

module _ (ip_version : Text → ℤ) where
  inject_batch-done :
      (k n : ℕ) (sizes : List ℕ) (bufs : List Text)
      → n ≤ length sizes
      → n ≤ length bufs
      → AllUpTo k sizes
      → AllSized k bufs
      → (inject_batch ip_version n sizes bufs).1 ≡ true
  unfolding inject_batch
  inject_batch-done k zero sizes bufs s b hs hb = refl
  inject_batch-done k (suc n) [] bufs s b hs hb = absurd (omega arith)
  inject_batch-done k (suc n) (size ∷ sizes) [] s b hs hb = absurd (omega arith)
  inject_batch-done k (suc n) (size ∷ sizes) (buf ∷ bufs) s b (h, hs) (e, hb) =
      let (packet, cut) = slice-within size buf (omega (arith, e, h)) in
      rw (cut, inject_batch) (inject_batch-done k n sizes bufs (omega arith) (omega arith) hs hb)

  loop-InBounds :
      (batch : ℤ) (mtu : ℕ) (sizes : List ℕ) (bufs : List Text) (ms : List Meets)
      → Held batch mtu sizes bufs
      → Delivers batch mtu ms
      → (inbound ip_version (rounds_on sizes bufs ms)).ended ≢ crashed
  unfolding inbound rounds_on
  loop-InBounds batch mtu sizes bufs [] h g e = cc
  loop-InBounds batch mtu sizes bufs (is_cancelled ∷ ms) h g e = cc
  loop-InBounds batch mtu sizes bufs (read_fails ∷ ms) h g e = cc
  loop-InBounds batch mtu sizes bufs (delivers n ss news ∷ ms) h (few, fit, g) e =
      let next = Held-next batch mtu sizes bufs ss news h fit in
      let enough = batch_of-enough batch n few in
      let done =
        inject_batch-done (mtu + 80) n (overwrite sizes ss) (overwrite_all bufs news)
          (omega (arith, enough, next.size_count)) (omega (arith, enough, next.buf_count))
          next.sizes_fit next.bufs_fit in
      loop-InBounds batch mtu (overwrite sizes ss) (overwrite_all bufs news) ms next g
        (sym (then_run-ended _ _ done) ∙ e)

  -- Whatever the batch size of the device, the MTU and the rounds, inbound slices no buffer out of its
  -- bounds, indexes none that it has not made, and does not panic, as long as the device returns no more
  -- packets than its batch size, or than one where that is not positive, and none that is longer than
  -- the MTU and 80 bytes of framing.
  pub run_inbound-InBounds :
      (batch : ℤ) (mtu : ℕ) (ms : List Meets)
      → Delivers batch mtu ms
      → (run_inbound ip_version batch mtu ms).ended ≢ crashed
  unfolding run_inbound
  run_inbound-InBounds batch mtu ms g =
      loop-InBounds batch mtu (zeros (batch_of batch)) (make_bufs (batch_of batch) mtu) ms
        (made-Held batch mtu) g
