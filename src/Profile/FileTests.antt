-- ===== src/Profile/FileTests.antt =====
-- The package at concrete inputs: files and the store.
use caravel.Prelude.{
  ◌≡◌, refl, true, false, Option, none, List, [], ◌∷◌, arith, ok, err, panic, list_store,
}
use caravel.Prelude.Text.{Text, bytes, ◌==◌, has_byte, has_suffix}
use caravel.Prelude.TextLaws.{cons-ne-nil}
use caravel.Disk
use caravel.Disk.{Disk}
use caravel.Profile.Parse.{parse, wrap_plaintext, aad}
use caravel.Profile.Parse.Laws.{
  Parsed, SealedUnder, parse-Parsed, parse-SealedUnder, parse-bad_nonce,
}
use caravel.Profile.Store.{path, list, Entry, bad_pattern, unlistable, globbed}
use caravel.Profile.Store.Laws.{path-in_store}
use caravel.Profile.Store.Listing.{IsListing, list-IsListing}
use caravel.Profile.Store.Refinement.{
  Op, import_op, raw_op, remove_op, run, run_spec, Refines, run-Refines,
}
use caravel.Profile.Types.{extension}
use caravel.Samples.Ciphers.{ciphers, ciphers-IsLawful}
use caravel.Samples.Profiles.{
  document, json, with_password, kdf, locked, locked_text, locked_ad, locked_key, cut, cut_text,
  blank,
}
use caravel.Samples.Sealed.{value_of}

abbrev wrapped : Text
unfolding wrap_plaintext
wrapped = value_of (wrap_plaintext json (bytes "profile"))

locked-SealedUnder : SealedUnder ciphers json locked_text (bytes "pass") document
unfolding aad ◌==◌
locked-SealedUnder = record {
  env = locked;
  decoded = refl;
  tagged = refl;
  versioned = refl;
  mode = refl;
  kdf = kdf;
  has_kdf = refl;
  key = locked_key;
  derived = refl;
  key_size = refl;
  nonce_size = refl;
  ad = locked_ad;
  has_ad = refl;
  json = bytes "profile";
  ciphertext = locked.payload;
  text_sealed = refl;
  carried = refl;
  is_profile = refl;
}

parse-SealedUnder_example : parse ciphers json locked_text with_password ≡ ok document
parse-SealedUnder_example =
    parse-SealedUnder ciphers json ciphers-IsLawful locked_text with_password document cons-ne-nil
      locked-SealedUnder

parse-Parsed_example : Parsed ciphers json locked_text with_password document
parse-Parsed_example =
    parse-Parsed ciphers json locked_text with_password document parse-SealedUnder_example

parse-bad_nonce_example : parse ciphers json cut_text with_password ≡ panic
unfolding aad
parse-bad_nonce_example =
    parse-bad_nonce ciphers json ciphers-IsLawful cut_text with_password cut kdf cut.payload
      (value_of (json.envelope.marshal (record cut { payload = [] }))) refl refl refl refl
      cons-ne-nil refl (omega arith) (omega arith) refl refl refl

path-in_store_example :
    (has_byte b'/' (path (bytes "../etc/home")) ≡ false)
    × (has_suffix (path (bytes "../etc/home")) extension ≡ true)
path-in_store_example = path-in_store (bytes "../etc/home")

-- A stored profile, and a file that is none.
abbrev two_files : Disk
two_files = record blank {
  files = (bytes "home.pharos", wrapped) ∷ (bytes "x.pharos", bytes "x") ∷ [];
}

list-IsListing_example :
    (list json bad_pattern two_files ≡ err list_store)
    × (list json unlistable two_files ≡ ok [])
    × ((out : List Entry) × (list json globbed two_files ≡ ok out) × IsListing json two_files out)
list-IsListing_example = list-IsListing json two_files

abbrev calls : List Op
calls =
    import_op (bytes "home") wrapped
    ∷ raw_op (bytes "dir/home.pharos")
    ∷ import_op (bytes "junk") (bytes "x")
    ∷ remove_op (bytes "home")
    ∷ raw_op (bytes "home")
    ∷ []

-- Nothing is in the store.
abbrev nothing : Text → Option Text
nothing k = none

run-Refines_example :
    ((run json calls blank).0 ≡ (run_spec json calls nothing).0)
    × Refines json (run json calls blank).1 (run_spec json calls nothing).1
unfolding Disk.content
run-Refines_example =
    run-Refines json calls blank nothing
      (record { unlocked = λ k. refl; readable = λ k. refl; same = λ k. refl })
