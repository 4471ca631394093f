-- ===== src/DeviceId/Tests.antt =====
-- The package at concrete inputs.
use caravel.Prelude.{◌≡◌, refl, pos, [], inl, ok}
use caravel.Prelude.Text.{Text, ◌==◌}
use caravel.Prelude.TextLaws.{cons-ne-nil}
use caravel.DeviceId.{Bundle, marshal, parse, with_defaults, format_tag}
use caravel.DeviceId.Laws.{IsComplete, parse-marshal}
use caravel.Samples.Codecs.{bundle_codec, bundle_codec-RoundTrips}
use caravel.Samples.Devices.{bundle}
use caravel.Samples.Sealed.{value_of}

-- A bundle whose tag and version are unset.
abbrev untagged : Bundle
untagged = record bundle { fmt = []; v = pos 0 }

abbrev untagged_text : Text
unfolding marshal with_defaults ◌==◌
untagged_text = value_of (marshal bundle_codec untagged)

untagged-IsComplete : IsComplete untagged
untagged-IsComplete = record {
  has_relay = cons-ne-nil;
  has_fleet_ca = cons-ne-nil;
  has_cert = cons-ne-nil;
  has_key = cons-ne-nil;
}

parse-marshal_example :
    parse bundle_codec untagged_text ≡ ok (record untagged { fmt = format_tag; v = pos 1 })
unfolding marshal with_defaults ◌==◌
parse-marshal_example =
    parse-marshal bundle_codec bundle_codec-RoundTrips untagged untagged_text untagged-IsComplete
      (inl refl) (inl refl) refl
