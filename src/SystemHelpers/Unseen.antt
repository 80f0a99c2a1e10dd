-- ===== src/SystemHelpers/Unseen.antt =====
-- `_redact_argv` of src/remote_host_mcp/system_helpers.py shows nothing of the secrets.
use remote_host_mcp.Prelude.{
  ◌≡◌, refl, sym, ap, ◌∙◌, Bool, true, false, not, ◌&&◌, ◌||◌, Option, none, some, List, [], ◌∷◌,
  ◌++◌, is_nil, arith, inl, inr, Bool-cases, Option-cases,
}
use mathlib.Core.Path.{ap₂}
use remote_host_mcp.Prelude.Text.{Text, codes, text_eq, has, split_once, split_once-first}
use remote_host_mcp.HubSettings.Parsers.{starts_with}
use remote_host_mcp.SystemHelpers.{redacted, is_sensitive_long_option}
use remote_host_mcp.SystemHelpers.Redaction.{
  split_all, Url, redact_netloc, redact_query, takes_secret, redact_url, redact_argument,
  redact_argv,
}
use remote_host_mcp.SystemHelpers.Secrets.{
  SameHost, SameQuery, redact_netloc-SameHost, redact_query-SameQuery,
}

module _ (urlsplit : Text → Option Url) (urlunsplit : Url → Text) where
  -- Two URLs that differ in their secrets at most, and have some.
  pub record SameUrl (value value' : Text) : Type 0 where
    pub first : Url
    pub second : Url
    pub user : Bool
    pub key : Bool
    pub splits_first : urlsplit value ≡ some first
    pub splits_second : urlsplit value' ≡ some second
    pub same_scheme : first.scheme ≡ second.scheme
    pub same_path : first.path ≡ second.path
    pub same_fragment : first.fragment ≡ second.fragment
    pub has_scheme : is_nil first.scheme ≡ false
    pub has_netloc : is_nil first.netloc ≡ false
    pub has_netloc' : is_nil second.netloc ≡ false
    pub same_host : SameHost user first.netloc second.netloc
    pub same_query : SameQuery key (split_all 38 first.query) (split_all 38 second.query)
    pub any_secret : (user || key) ≡ true

  -- What `_redact_url` returns for a URL of that kind
  redact_url-changed :
      (value : Text) (u : Url)
      → urlsplit value ≡ some u
      → is_nil u.scheme ≡ false
      → is_nil u.netloc ≡ false
      → ((redact_netloc u.netloc).1 || (redact_query u.query).1) ≡ true
      → redact_url urlsplit urlunsplit value
        ≡ urlunsplit
            (record u { netloc = (redact_netloc u.netloc).0; query = (redact_query u.query).0 })
  unfolding redact_url
  redact_url-changed value u h s n c = ground (arith, h, s, n, c)

  redact_url-SameUrl :
      (value value' : Text)
      → SameUrl value value'
      → redact_url urlsplit urlunsplit value ≡ redact_url urlsplit urlunsplit value'
  redact_url-SameUrl value value' v =
      let (host, user_seen) = redact_netloc-SameHost v.first.netloc v.second.netloc v.same_host in
      let (query, key_seen) = redact_query-SameQuery v.first.query v.second.query v.same_query in
      let changed : ((redact_netloc v.first.netloc).1 || (redact_query v.first.query).1) ≡ true =
        elim (Bool-cases v.user) [
          | inl t ↦ ap (λ b. b || (redact_query v.first.query).1) (user_seen t)
          | inr f ↦
              let k : v.key ≡ true = sym (ap (λ b. b || v.key) f) ∙ v.any_secret in
              let seen = key_seen k in ground (arith, seen)
        ] in
      let changed' = sym (ap₂ (λ n q. n.1 || q.1) host query) ∙ changed in
      redact_url-changed value v.first v.splits_first v.has_scheme v.has_netloc changed
      ∙ ap urlunsplit (λ i. record {
        scheme = v.same_scheme i;
        netloc = (host i).0;
        path = v.same_path i;
        query = (query i).0;
        fragment = v.same_fragment i;
      })
      ∙ sym (
          redact_url-changed value' v.second v.splits_second
            (ap is_nil (sym v.same_scheme) ∙ v.has_scheme) v.has_netloc' changed')

  -- What stands behind the first `=` is no URL with a secret, and what stands before it no
  -- sensitive option.
  abbrev pub is_alone : Text → Bool
  is_alone value = elim (split_once 61 value) [
    | none ↦ true
    | some (prefix, remainder) ↦
        not (starts_with (codes "--") prefix && is_sensitive_long_option prefix)
        && text_eq (redact_url urlsplit urlunsplit remainder) remainder
  ]

  -- Two arguments that differ in their secrets at most.
  pub data SameArgument : Text → Text → Type 0 where
    same : (value : Text) → SameArgument value value
    option :
        (key value value' : Text)
        → starts_with (codes "--") key ≡ true
        → has 61 key ≡ false
        → is_sensitive_long_option key ≡ true
        → SameArgument (key ++ 61 ∷ value) (key ++ 61 ∷ value')
    url :
        {value value' : Text}
        → SameUrl value value'
        → is_alone value ≡ true
        → is_alone value' ≡ true
        → SameArgument value value'

  -- Two command lines that differ in the secrets of their arguments and in the arguments behind the
  -- sensitive options.
  pub data SameArgv : List Text → List Text → Type 0 where
    ended : SameArgv [] []
    last_one : (name : Text) → takes_secret name ≡ true → SameArgv (name ∷ []) (name ∷ [])
    hidden :
        {argv argv' : List Text}
        → (name value value' : Text) → takes_secret name ≡ true
        → SameArgv argv argv'
        → SameArgv (name ∷ value ∷ argv) (name ∷ value' ∷ argv')
    shown :
        {value value' : Text}
        → {argv argv' : List Text} → takes_secret value ≡ false
        → takes_secret value' ≡ false
        → SameArgument value value'
        → SameArgv argv argv'
        → SameArgv (value ∷ argv) (value' ∷ argv')

  redact_argument-option :
      (key value : Text)
      → starts_with (codes "--") key ≡ true
      → has 61 key ≡ false
      → is_sensitive_long_option key ≡ true
      → redact_argument urlsplit urlunsplit (key ++ 61 ∷ value) ≡ key ++ 61 ∷ redacted
  unfolding redact_argument
  redact_argument-option key value s h k = ground (arith, s, k, split_once-first 61 key value h)

  redact_argument-alone :
      (value : Text)
      → is_alone value ≡ true
      → redact_argument urlsplit urlunsplit value ≡ redact_url urlsplit urlunsplit value
  unfolding redact_argument
  redact_argument-alone value h = elim (Option-cases (split_once 61 value)) [
    | inl e ↦ ground (arith, e)
    | inr ((prefix, remainder), e) ↦ ground (arith, e, h)
  ]

  redact_argument-SameArgument :
      (value value' : Text)
      → SameArgument value value'
      → redact_argument urlsplit urlunsplit value ≡ redact_argument urlsplit urlunsplit value'
  redact_argument-SameArgument value value' (same _) = refl
  redact_argument-SameArgument _ _ (option key value value' s h k) =
      redact_argument-option key value s h k ∙ sym (redact_argument-option key value' s h k)
  redact_argument-SameArgument value value' (url v a a') =
      redact_argument-alone value a
      ∙ redact_url-SameUrl value value' v
      ∙ sym (redact_argument-alone value' a')

  redact_argv-shown :
      (value : Text) (argv : List Text)
      → takes_secret value ≡ false
      → redact_argv urlsplit urlunsplit (value ∷ argv)
        ≡ redact_argument urlsplit urlunsplit value ∷ redact_argv urlsplit urlunsplit argv
  unfolding redact_argv
  redact_argv-shown value [] h = ground (arith, h)
  redact_argv-shown value (next ∷ argv) h = ground (arith, h)

  -- Two command lines that differ only in the arguments behind sensitive options, in the values of
  -- such options, and in the users and the sensitive parameters of URLs that stand alone, are shown
  -- alike: nothing of those secrets can be seen, whatever `urlsplit` and `urlunsplit` return.
  pub redact_argv-SameArgv :
      (argv argv' : List Text)
      → SameArgv argv argv'
      → redact_argv urlsplit urlunsplit argv ≡ redact_argv urlsplit urlunsplit argv'
  unfolding redact_argv
  redact_argv-SameArgv _ _ ended = refl
  redact_argv-SameArgv _ _ (last_one name t) = refl
  redact_argv-SameArgv _ _ (hidden {argv = argv} {argv' = argv'} name value value' t v) =
      let rest = redact_argv-SameArgv argv argv' v in ground (arith, t, rest)
  redact_argv-SameArgv _ _ (shown {value} {value'} {argv} {argv'} f f' a v) =
      redact_argv-shown value argv f
      ∙ ap₂ ◌∷◌ (redact_argument-SameArgument value value' a) (redact_argv-SameArgv argv argv' v)
      ∙ sym (redact_argv-shown value' argv' f')
