-- ===== src/SystemHelpers/Tests.antt =====
-- Command lines with secrets, and a splitter for URLs of the scheme http.
use remote_host_mcp.Prelude.{
  ◌≡◌, refl, true, false, Option, none, some, List, [], ◌∷◌, ◌++◌, drop, if◌then◌else◌, is_nil,
}
use remote_host_mcp.Prelude.Text.{Text, codes, lower, strip, has, split_once}
use remote_host_mcp.HubSettings.Parsers.{starts_with}
use remote_host_mcp.SystemHelpers.{is_sensitive_long_option, normalized_secret_name}
use remote_host_mcp.SystemHelpers.Redaction.{
  after_last, split_all, Url, redact_netloc, takes_secret, redact_url, redact_argument, redact_argv,
}
use remote_host_mcp.SystemHelpers.Secrets.{with_user, no_more, open_one}
use remote_host_mcp.SystemHelpers.Unseen.{
  SameUrl, same, option, url, SameArgv, ended, hidden, shown, redact_argv-SameArgv,
}

abbrev rest_of : Text → Text × Text
rest_of t = elim (split_once 63 t) [ none ↦ (t, []) | some parts ↦ parts ]

abbrev located : Text → Text × Text
located t = elim (split_once 47 t) [ none ↦ (t, []) | some (netloc, path) ↦ (netloc, 47 ∷ path) ]

abbrev http_split : Text → Option Url
http_split t =
    let (place, query) = rest_of (drop 7 t) in
    let (netloc, path) = located place in
    if starts_with (codes "http://") t
    then some (record {
      scheme = codes "http";
      netloc = netloc;
      path = path;
      query = query;
      fragment = [];
    })
    else none

abbrev asked : Text → Text
asked q = if is_nil q then [] else 63 ∷ q

abbrev http_join : Url → Text
http_join u = codes "http://" ++ u.netloc ++ u.path ++ asked u.query

abbrev command_line : Text → Text → Text → List Text
command_line token password user =
    codes "tool"
    ∷ codes "--api_token"
    ∷ token
    ∷ (codes "--password" ++ 61 ∷ password)
    ∷ (codes "http://" ++ user ++ codes "@host/")
    ∷ []

abbrev url_parts : Text → Url
url_parts user = record {
  scheme = codes "http";
  netloc = user ++ codes "@host";
  path = codes "/";
  query = [];
  fragment = [];
}

token_is_secret : takes_secret (codes "--api_token") ≡ true
unfolding takes_secret starts_with has is_sensitive_long_option normalized_secret_name lower strip
token_is_secret = refl

two_users : SameUrl http_split http_join (codes "http://me:pw@host/") (codes "http://you@host/")
unfolding starts_with split_once has split_all
two_users = record {
  first = url_parts (codes "me:pw");
  second = url_parts (codes "you");
  user = true;
  key = false;
  splits_first = refl;
  splits_second = refl;
  same_scheme = refl;
  same_path = refl;
  same_fragment = refl;
  has_scheme = refl;
  has_netloc = refl;
  has_netloc' = refl;
  same_host = with_user (codes "me:pw") (codes "you") (codes "host") refl;
  same_query = open_one [] no_more;
  any_secret = refl;
}

abbrev first_line : List Text
first_line = command_line (codes "t1") (codes "p1") (codes "me:pw")

abbrev second_line : List Text
second_line = command_line (codes "other") (codes "x=y") (codes "you")

same_but_secrets : SameArgv http_split http_join first_line second_line
unfolding takes_secret starts_with has is_sensitive_long_option normalized_secret_name lower strip
    split_once
same_but_secrets = shown refl refl (same (codes "tool")) (
    hidden (codes "--api_token") (codes "t1") (codes "other") token_is_secret (
      shown refl refl (option (codes "--password") (codes "p1") (codes "x=y") refl refl refl)
        (shown refl refl (url two_users refl refl) ended)))

redact_argv-SameArgv_example :
    redact_argv http_split http_join first_line ≡ redact_argv http_split http_join second_line
redact_argv-SameArgv_example =
    redact_argv-SameArgv http_split http_join first_line second_line same_but_secrets

-- Where a parameter of a URL holds a URL with a user, only the inner one is redacted.
outer_user_seen :
    redact_argument http_split http_join (codes "http://u:p@h/?a=http://x:y@z/")
    ≡ codes "http://u:p@h/?a=http://<redacted>@z/"
unfolding redact_argument split_once starts_with redact_url redact_netloc after_last
outer_user_seen = refl
