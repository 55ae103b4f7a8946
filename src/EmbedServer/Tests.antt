-- ===== src/EmbedServer/Tests.antt =====
-- A server with a listener for other machines, and the theorems on it. The digest of the stand-in
-- library is one byte, the length of the token, behind 31 zeros.
use m3_core_rs.Base.{
  ℕ, zero, suc, ◌+◌, ◌*◌, ◌≤◌, ◌≡◌, refl, ◌↔◌, ◌⊎◌, true, false, none, some, List, [], ◌∷◌, ◌++◌,
  map, arith, if◌then◌else◌, length, All, Text, ascii, text_eq, text_eq_iff, Chars,
  to_ascii_lowercase, trim, trim_start, trim_end, is_whitespace, eq_ignore_ascii_case,
}
use m3_core_rs.EmbedServer.{ok}
use m3_core_rs.EmbedServer.Digest.{parse_digest}
use m3_core_rs.EmbedServer.Digest.Printed.{Byte, hex, parse_digest_iff}
use m3_core_rs.EmbedServer.Bearer.{
  Crypto, wrong_token, no_header, Rejects, Request, runs, split_once, require_bearer,
}
use m3_core_rs.EmbedServer.Bearer.Admission.{Bears, require_bearer_iff}
use m3_core_rs.EmbedServer.Bearer.Rejections.{
  Step, claims, reports, counts, run, told, rejections, claimed, run-told, run-claimed,
}
use m3_core_rs.EmbedServer.Plan.Tls.{Provider, cipher_suites, kx_groups, tls13, server_tls_config}
use m3_core_rs.EmbedServer.Plan.{
  v4, is_loopback, SocketAddr, SecurityConfig, default_config, Parser, Security, parse_listen,
  addr_eq, settled, remote_checked, served, plan,
}
use m3_core_rs.EmbedServer.Plan.Guarded.{Guarded, plan-Guarded}

abbrev zeros : ℕ → List ℕ
zeros zero = []
zeros (suc n) = 0 ∷ zeros n

abbrev digest : Text → List ℕ
digest token = zeros 31 ++ length token ∷ []

abbrev want : List ℕ
want = digest (ascii "token")

abbrev setting : Chars
setting = b' ' ∷ (hex (zeros 31) ++ ascii "05")

parse_digest_iff_example :
    (parse_digest setting ≡ ok want)
    ↔ ((length want ≡ 32) × All Byte want × (map to_ascii_lowercase (trim setting) ≡ hex want))
parse_digest_iff_example = parse_digest_iff setting want

abbrev crypto : Crypto
crypto = record {
  sha256 = digest;
  to_str = some;
  verify_slices_are_equal = text_eq;
  verify_slices_are_equal_iff = text_eq_iff;
}

abbrev request : Request
request = record { path = ascii "/v1/embeddings"; authorization = some (ascii "BEARER token") }

abbrev fresh : Rejects
fresh = record { last_reject_warn_s = 0; rejects_unreported = 0; log = [] }

require_bearer_iff_example :
    ((require_bearer crypto want 0 100 request fresh).1 ≡ runs)
    ↔ ((request.path ≡ ascii "/health") ⊎ Bears crypto request.authorization want)
require_bearer_iff_example = require_bearer_iff crypto want 0 100 request fresh

require_bearer_test : (require_bearer crypto want 0 100 request fresh).1 ≡ runs
unfolding require_bearer text_eq split_once trim_start trim_end is_whitespace eq_ignore_ascii_case
require_bearer_test = refl

-- Two threads refuse a request at the same time, and one of them warns.
abbrev threads : List Step
threads =
    claims 0 100
    ∷ claims 0 100
    ∷ counts wrong_token
    ∷ reports no_header
    ∷ claims 100 105
    ∷ counts no_header
    ∷ []

run-told_example :
    told (run threads fresh).log + (run threads fresh).rejects_unreported
    ≡ told fresh.log + fresh.rejects_unreported + rejections threads
run-told_example = run-told threads fresh (omega arith)

run-claimed_example :
    fresh.last_reject_warn_s + 10 * claimed threads fresh ≤ (run threads fresh).last_reject_warn_s
run-claimed_example = run-claimed threads fresh

abbrev parser : Parser
parser = record {
  socket = λ s. none;
  address = λ s. if text_eq s (ascii "10.0.0.7") then some (v4 10 0 0 7) else none;
}

abbrev provider : Provider
provider = record {
  Certificate = Unit;
  PrivateKey = Unit;
  fips = false;
  mode = λ key. ok 0o100600;
  pem_file_iter = λ cert. ok (ok tt ∷ []);
  from_pem_file = λ key. ok tt;
  with_protocol_versions = λ suites groups versions. ok tt;
  with_single_cert = λ certs key. ok tt;
}

abbrev local : SocketAddr
local = record { ip = v4 127 0 0 1; port = 8082; flowinfo = 0; scope_id = 0 }

abbrev secured : SecurityConfig
secured = record default_config {
  remote_listen = some (ascii "10.0.0.7");
  tls_cert = some (ascii "cert.pem");
  tls_key = some (ascii "key.pem");
  token_sha256 = some setting;
  fips_mode = true;
}

abbrev listener : SocketAddr
listener = record { ip = v4 10 0 0 7; port = 8082; flowinfo = 0; scope_id = 0 }

abbrev enforced : Security provider
enforced = record {
  remote = some (record {
    addr = listener;
    tls = record {
      suites = cipher_suites;
      groups = kx_groups;
      versions = tls13 ∷ [];
      client_auth = false;
      chain = tt ∷ [];
      key = tt;
      alpn_protocols = ascii "http/1.1" ∷ [];
    };
    token_digest = want;
  });
}

accepted : (plan provider parser local secured).1 ≡ ok enforced
unfolding plan settled remote_checked served parse_listen parse_digest server_tls_config text_eq
    addr_eq trim_end trim_start is_whitespace
accepted = refl

plan-Guarded_example :
    (is_loopback local.ip ≡ true) × Guarded provider parser local secured enforced.remote
plan-Guarded_example = plan-Guarded provider parser local secured enforced accepted
