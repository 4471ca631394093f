-- ===== src/Enroll/Link/Laws.antt =====
-- A link that ParseLink accepts is complete.
use caravel.Prelude.{
  ◌≡◌, ◌≢◌, false, not, some, [], arith, ok, >>=-eq-ok, reject_if-eq-ok, ok-injective, or_err,
  or_err-eq-ok, empty_link, unparsable_link, wrong_scheme, wrong_host, link_missing_relay,
  link_missing_token, link_missing_ca,
}
use caravel.Prelude.Text.{Text, bytes, ◌==◌, eq_iff, trim_space}
use caravel.Enroll.Link.{Link, Url, UrlParser, get, parse_link, link_scheme, link_host}

-- What ParseLink has established of a link.
pub record Accepted (url_parse : UrlParser) (raw : Text) (l : Link) : Type 0 where
  pub url : Url
  pub parsed : url_parse (trim_space raw) ≡ some url
  pub has_scheme : url.scheme ≡ link_scheme
  pub has_host : url.host ≡ link_host
  pub relay : l.relay ≡ trim_space (get (bytes "relay") url.query)
  pub token : l.token ≡ trim_space (get (bytes "token") url.query)
  pub ca : l.ca_fingerprint ≡ trim_space (get (bytes "ca") url.query)
  pub relay_given : l.relay ≢ []
  pub token_given : l.token ≢ []
  pub ca_given : l.ca_fingerprint ≢ []

-- A link that ParseLink returns has the scheme and the host of enrollment links, and the trimmed
-- values of its relay, token and ca parameters, none of them empty.
pub parse_link-Accepted :
    (url_parse : UrlParser) (raw : Text) (l : Link)
    → parse_link url_parse raw ≡ ok l
    → Accepted url_parse raw l
unfolding parse_link
parse_link-Accepted url_parse raw l h =
    let (_, h1) = reject_if-eq-ok (trim_space raw == []) empty_link _ h in
    let (u, p, h2) = >>=-eq-ok (or_err (url_parse (trim_space raw)) unparsable_link) _ h1 in
    let (s, h3) = reject_if-eq-ok (not (u.scheme == link_scheme)) wrong_scheme _ h2 in
    let (o, h4) = reject_if-eq-ok (not (u.host == link_host)) (wrong_host u.host) _ h3 in
    let relay = trim_space (get (bytes "relay") u.query) in
    let token = trim_space (get (bytes "token") u.query) in
    let ca = trim_space (get (bytes "ca") u.query) in
    let (r, h5) = reject_if-eq-ok (relay == []) link_missing_relay _ h4 in
    let (t, h6) = reject_if-eq-ok (token == []) link_missing_token _ h5 in
    let (c, h7) = reject_if-eq-ok (ca == []) link_missing_ca _ h6 in
    let same = ok-injective _ l h7 in
    record {
      url = u;
      parsed = or_err-eq-ok (url_parse (trim_space raw)) unparsable_link p;
      has_scheme = ground (arith, eq_iff u.scheme link_scheme);
      has_host = ground (arith, eq_iff u.host link_host);
      relay = rw (← same);
      token = rw (← same);
      ca = rw (← same);
      relay_given = rw (← same) (given relay r);
      token_given = rw (← same) (given token t);
      ca_given = rw (← same) (given ca c);
    }
  where
    given : (s : Text) → (s == []) ≡ false → s ≢ []
    given s h e = ground (arith, eq_iff s [])
