-- ===== src/Enroll/Link.antt =====
-- go/enroll/link.go: ParseLink. net/url's Parse and Query stand as one argument.
pub mod Laws
use caravel.Prelude.{
  Bool, not, Option, none, some, List, [], ◌∷◌, if◌then◌else◌, Result, ok, err, ◌>>=◌, ◌>>◌,
  reject_if, or_err, empty_link, unparsable_link, wrong_scheme, wrong_host, link_missing_relay,
  link_missing_token, link_missing_ca,
}
use caravel.Prelude.Text.{Text, bytes, ◌==◌, trim_space}

abbrev pub link_scheme : Text
link_scheme = bytes "pharosvpn"

abbrev pub link_host : Text
link_host = bytes "enroll"

-- Link
pub record Link : Type 0 where
  pub relay : Text
  pub token : Text
  pub ca_fingerprint : Text

-- The parts of a url.URL that the program reads; the query's pairs in the order of the text.
pub record Url : Type 0 where
  pub scheme : Text
  pub host : Text
  pub query : List (Text × Text)

abbrev pub UrlParser : Type 0
UrlParser = Text → Option Url

-- url.Values.Get: the first value of a key, or the empty text.
unfoldable pub get : Text → List (Text × Text) → Text
get k [] = []
get k ((j, v) ∷ q) = let rest = get k q in if j == k then v else rest

-- ParseLink
unfoldable pub parse_link : UrlParser → Text → Result Link
unfolding get
parse_link url_parse raw = do
  let trimmed = trim_space raw
  reject_if (trimmed == []) empty_link
  u ← or_err (url_parse trimmed) unparsable_link
  reject_if (not (u.scheme == link_scheme)) wrong_scheme
  reject_if (not (u.host == link_host)) (wrong_host u.host)
  let relay = trim_space (get (bytes "relay") u.query)
  let token = trim_space (get (bytes "token") u.query)
  let ca = trim_space (get (bytes "ca") u.query)
  reject_if (relay == []) link_missing_relay
  reject_if (token == []) link_missing_token
  reject_if (ca == []) link_missing_ca
  ok (record { relay = relay; token = token; ca_fingerprint = ca })
