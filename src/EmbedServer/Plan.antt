-- ===== src/EmbedServer/Plan.antt =====
-- crates/m3-embed-server/src/security.rs: the check of the configuration against the local listener,
-- and what the server enforces. Parsing of addresses, files and rustls are parameters. A refusal
-- keeps what its message is made of.
pub mod Tls
pub mod Guarded
use m3_core_rs.Base.{
  ℕ, ◌≡◌, Bool, true, false, not, ◌&&◌, Option, none, some, is_some, List, [], ◌∷◌, ◌==◌,
  if◌then◌else◌, Text, ascii, is_empty, text_eq, Chars, trim, trim_end,
}
use m3_core_rs.Config.Lookup.{Source, by_default}
use m3_core_rs.EmbedServer.{Outcome, ok, err, ◌>>=◌, ◌>>◌, refuse_if}
use m3_core_rs.EmbedServer.Digest.{DigestError, parse_digest}
use m3_core_rs.EmbedServer.Plan.Tls.{
  FilePath, Provider, TlsError, ServerConfig, provider_is_fips, server_tls_config,
}

pub data IpAddr : Type 0 where
  v4 : ℕ → ℕ → ℕ → ℕ → IpAddr
  v6 : List ℕ → IpAddr

unfoldable pub is_loopback : IpAddr → Bool
unfolding text_eq
is_loopback (v4 a b c d) = a == 127
is_loopback (v6 segments) = text_eq segments (0 ∷ 0 ∷ 0 ∷ 0 ∷ 0 ∷ 0 ∷ 0 ∷ 1 ∷ [])

-- Flow and scope of an IPv4 address are 0.
pub record SocketAddr : Type 0 where
  pub ip : IpAddr
  pub port : ℕ
  pub flowinfo : ℕ
  pub scope_id : ℕ

unfoldable pub ip_eq : IpAddr → IpAddr → Bool
ip_eq (v4 a b c d) (v4 a' b' c' d') = a == a' && b == b' && c == c' && d == d'
ip_eq (v4 a b c d) (v6 t) = false
ip_eq (v6 s) (v4 a b c d) = false
ip_eq (v6 s) (v6 t) = text_eq s t

unfoldable pub addr_eq : SocketAddr → SocketAddr → Bool
unfolding ip_eq
addr_eq a b =
    ip_eq a.ip b.ip && a.port == b.port && a.flowinfo == b.flowinfo && a.scope_id == b.scope_id

pub record SecurityConfig : Type 0 where
  pub remote_listen : Option Chars
  pub tls_cert : Option FilePath
  pub tls_key : Option FilePath
  pub token_sha256 : Option Chars
  pub fips_mode : Bool
  pub fips_strict : Bool
  pub config_path : FilePath
  pub fips_mode_from : Text
  pub fips_strict_from : Text
  pub fips_mode_source : Source
  pub fips_strict_source : Source
  pub token_from : Text

abbrev pub default_config : SecurityConfig
default_config = record {
  remote_listen = none;
  tls_cert = none;
  tls_key = none;
  token_sha256 = none;
  fips_mode = false;
  fips_strict = false;
  config_path = [];
  fips_mode_from = [];
  fips_strict_from = [];
  fips_mode_source = by_default;
  fips_strict_source = by_default;
  token_from = [];
}

unfoldable pub token_where : SecurityConfig → Text
token_where cfg =
    if is_empty cfg.token_from
    then ascii "M3_EMBED_SERVER_TOKEN_SHA256 in the secrets file"
    else cfg.token_from

unfoldable pub file : SecurityConfig → Text
file cfg = if is_empty cfg.config_path then ascii "m3_config.toml" else cfg.config_path

-- `half_pair` says whether it is the certificate that is given, `incomplete` whether TLS and the
-- token are.
pub data Refusal : Type 0 where
  not_loopback : IpAddr → Refusal
  bad_digest : DigestError → Refusal
  half_pair : Text → Bool → Refusal
  bad_listen : Chars → Refusal
  own_address : SocketAddr → Refusal
  incomplete : SocketAddr → Text → Bool → Bool → Text → Refusal
  not_fips : Text → Refusal
  bad_tls : TlsError → Refusal

pub data Warning : Type 0 where
  unused : Bool → Bool → Text → Warning
  not_validated : Text → Warning

trim_start_matches : ℕ → Chars → Chars
trim_start_matches b [] = []
trim_start_matches b (c ∷ s) = if c == b then trim_start_matches b s else c ∷ s

trim_end_matches : ℕ → Chars → Chars
trim_end_matches b [] = []
trim_end_matches b (c ∷ s) =
    let rest = trim_end_matches b s in if c == b && is_empty rest then [] else c ∷ rest

-- `str::parse` of the standard library.
pub record Parser : Type 0 where
  pub socket : Chars → Option SocketAddr
  pub address : Chars → Option IpAddr

module _ (p : Parser) where
  on_port : Chars → ℕ → Option IpAddr → Outcome Refusal SocketAddr
  on_port s port none = err (bad_listen s)
  on_port s port (some ip) = ok (record { ip = ip; port = port; flowinfo = 0; scope_id = 0 })

  listen_of : Chars → ℕ → Option SocketAddr → Outcome Refusal SocketAddr
  unfolding on_port trim_start_matches trim_end_matches
  listen_of s port (some a) = ok a
  listen_of s port none =
      on_port s port (p.address (trim_end_matches b']' (trim_start_matches b'[' s)))

  unfoldable pub parse_listen : Chars → ℕ → Outcome Refusal SocketAddr
  unfolding listen_of
  parse_listen s port = let t = trim s in listen_of t port (p.socket t)

read : Outcome DigestError (List ℕ) → Outcome Refusal (Option (List ℕ))
read (ok d) = ok (some d)
read (err e) = err (bad_digest e)

digest_of : Option Chars → Outcome Refusal (Option (List ℕ))
unfolding read parse_digest
digest_of none = ok none
digest_of (some hex) = read (parse_digest hex)

tls_pair_of :
    Text → Option FilePath → Option FilePath → Outcome Refusal (Option (FilePath × FilePath))
tls_pair_of at none none = ok none
tls_pair_of at (some cert) (some key) = ok (some (cert, key))
tls_pair_of at (some cert) none = err (half_pair at true)
tls_pair_of at none (some key) = err (half_pair at false)

both :
    SocketAddr
    → SecurityConfig
    → Option (FilePath × FilePath)
    → Option (List ℕ)
    → Outcome Refusal (FilePath × FilePath × List ℕ)
unfolding file token_where
both addr cfg (some (cert, key)) (some digest) = ok (cert, key, digest)
both addr cfg pair digest =
    err (incomplete addr (file cfg) (is_some pair) (is_some digest) (token_where cfg))

unused_settings : SecurityConfig → Bool → Bool → List Warning
unfolding file
unused_settings cfg false false = []
unused_settings cfg pair digest = unused pair digest (file cfg) ∷ []

-- The settings that both listeners need, in their order.
unfoldable pub settled :
    SocketAddr → SecurityConfig → Outcome Refusal (Option (List ℕ) × Option (FilePath × FilePath))
unfolding is_loopback digest_of tls_pair_of file
settled local cfg = do
  refuse_if (not (is_loopback local.ip)) (not_loopback local.ip)
  digest ← digest_of cfg.token_sha256
  pair ← tls_pair_of (file cfg) cfg.tls_cert cfg.tls_key
  ok (digest, pair)

module _ (lib : Provider) where
  pub record Remote : Type 0 where
    pub addr : SocketAddr
    pub tls : ServerConfig lib
    pub token_digest : List ℕ

  pub record Security : Type 0 where
    pub remote : Option Remote

  unfoldable pub served :
      SocketAddr × FilePath × FilePath × List ℕ
      → Outcome TlsError (ServerConfig lib)
      → Outcome Refusal Security
  served (addr, cert, key, d) (err e) = err (bad_tls e)
  served (addr, cert, key, d) (ok tls) =
      let r : Remote = record { addr = addr; tls = tls; token_digest = d } in
      let s : Security = record { remote = some r } in ok s

  fips_warning : SecurityConfig → List Warning
  unfolding provider_is_fips
  fips_warning cfg =
      if cfg.fips_mode && not (provider_is_fips lib)
      then not_validated cfg.fips_mode_from ∷ []
      else []

  remote_planned :
      SecurityConfig
      → Outcome Refusal (SocketAddr × FilePath × FilePath × List ℕ)
      → List Warning × Outcome Refusal Security
  unfolding fips_warning served server_tls_config
  remote_planned cfg (err e) = ([], err e)
  remote_planned cfg (ok (addr, cert, key, d)) =
      (fips_warning cfg, served (addr, cert, key, d) (server_tls_config lib cert key))

  local_only : Security
  local_only = record { remote = none }

module _ (lib : Provider) (p : Parser) where
  unfoldable pub remote_checked :
      SocketAddr
      → SecurityConfig
      → Option (List ℕ) × Option (FilePath × FilePath)
      → Chars
      → Outcome Refusal (SocketAddr × FilePath × FilePath × List ℕ)
  unfolding parse_listen addr_eq both provider_is_fips
  remote_checked local cfg (digest, pair) remote = do
    addr ← parse_listen p remote local.port
    refuse_if (addr_eq addr local) (own_address addr)
    (cert, key, d) ← both addr cfg pair digest
    refuse_if (cfg.fips_strict && not (provider_is_fips lib)) (not_fips cfg.fips_strict_from)
    ok (addr, cert, key, d)

  planned :
      SocketAddr
      → SecurityConfig
      → Option Chars
      → Outcome Refusal (Option (List ℕ) × Option (FilePath × FilePath))
      → List Warning × Outcome Refusal (Security lib)
  unfolding unused_settings remote_planned remote_checked local_only
  planned local cfg remote (err e) = ([], err e)
  planned local cfg none (ok (digest, pair)) =
      (unused_settings cfg (is_some pair) (is_some digest), ok (local_only lib))
  planned local cfg (some remote) (ok (digest, pair)) =
      remote_planned lib cfg (remote_checked local cfg (digest, pair) remote)

  -- The warnings that are logged, and what the server enforces or why it refuses.
  unfoldable pub plan : SocketAddr → SecurityConfig → List Warning × Outcome Refusal (Security lib)
  unfolding planned settled
  plan local cfg = planned local cfg cfg.remote_listen (settled local cfg)
