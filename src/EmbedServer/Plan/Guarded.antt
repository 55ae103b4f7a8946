-- ===== src/EmbedServer/Plan/Guarded.antt =====
-- What is enforced when a configuration is accepted.
use m3_core_rs.Base.{
  ℕ, ◌≡◌, refl, ◌⊎◌, inl, inr, true, false, not, ◌&&◌, Option, none, some, List, arith, Chars,
}
use m3_core_rs.EmbedServer.{
  Outcome, ok, err, refuse_if, refuse_if-ok, not_refused, Yields, Yields-ok, >>=-Yields, Yields-and,
}
use m3_core_rs.EmbedServer.Digest.{DigestError, parse_digest}
use m3_core_rs.EmbedServer.Plan.Tls.{
  FilePath, Provider, TlsError, ServerConfig, provider_is_fips, server_tls_config, IsPrivate,
  Approved, server_tls_config-IsApproved,
}
use m3_core_rs.EmbedServer.Plan.{
  SocketAddr, is_loopback, addr_eq, SecurityConfig, Refusal, not_loopback, own_address, not_fips,
  Parser, parse_listen, read, digest_of, tls_pair_of, file, both, Remote, Security, settled,
  remote_checked, served, remote_planned, planned, local_only, plan,
}

-- A digest that is settled is the one of the setting.
abbrev DigestFrom : Option Chars → Option (List ℕ) → Type 0
DigestFrom setting digest =
    (digest ≡ none)
    ⊎ ((hex : Chars) × (d : List ℕ) × (setting ≡ some hex)
        × (digest ≡ some d)
        × (parse_digest hex ≡ ok d))

read-Yields :
    (hex : Chars) (o : Outcome DigestError (List ℕ))
    → parse_digest hex ≡ o
    → Yields (read o) (DigestFrom (some hex))
unfolding read
read-Yields hex (ok d) e = inr (hex, d, refl, refl, e)
read-Yields hex (err x) e = tt

digest_of-Yields : (setting : Option Chars) → Yields (digest_of setting) (DigestFrom setting)
unfolding digest_of
digest_of-Yields none = inl refl
digest_of-Yields (some hex) = read-Yields hex (parse_digest hex) refl

abbrev PairFrom : Option FilePath → Option FilePath → Option (FilePath × FilePath) → Type 0
PairFrom tls_cert tls_key pair =
    (pair ≡ none)
    ⊎ ((cert : FilePath) × (key : FilePath) × (tls_cert ≡ some cert)
        × (tls_key ≡ some key)
        × (pair ≡ some (cert, key)))

tls_pair_of-Yields :
    (at : FilePath) (cert key : Option FilePath)
    → Yields (tls_pair_of at cert key) (PairFrom cert key)
unfolding tls_pair_of
tls_pair_of-Yields at none none = inl refl
tls_pair_of-Yields at (some cert) (some key) = inr (cert, key, refl, refl, refl)
tls_pair_of-Yields at (some cert) none = tt
tls_pair_of-Yields at none (some key) = tt

abbrev Settled :
    SocketAddr → SecurityConfig → Option (List ℕ) × Option (FilePath × FilePath) → Type 0
Settled local cfg (digest, pair) =
    (is_loopback local.ip ≡ true)
    × DigestFrom cfg.token_sha256 digest
    × PairFrom cfg.tls_cert cfg.tls_key pair

settled-Yields :
    (local : SocketAddr) (cfg : SecurityConfig) → Yields (settled local cfg) (Settled local cfg)
unfolding settled
settled-Yields local cfg =
    >>=-Yields (refuse_if (not (is_loopback local.ip)) (not_loopback local.ip)) _ _ λ u home.
      >>=-Yields (digest_of cfg.token_sha256) _ _ λ digest d.
        >>=-Yields (tls_pair_of (file cfg) cfg.tls_cert cfg.tls_key) _ _ λ pair k. (
          not_refused _ _ home,
          Yields-ok _ _ (digest_of-Yields cfg.token_sha256) d,
          Yields-ok _ _ (tls_pair_of-Yields (file cfg) cfg.tls_cert cfg.tls_key) k,
        )

both-Yields :
    (addr : SocketAddr) (cfg : SecurityConfig) (pair : Option (FilePath × FilePath))
    (digest : Option (List ℕ))
    → Yields
        (both addr cfg pair digest)
        (λ (cert, key, d). (pair ≡ some (cert, key)) × (digest ≡ some d))
unfolding both
both-Yields addr cfg (some (cert, key)) (some d) = (refl, refl)
both-Yields addr cfg (some (cert, key)) none = tt
both-Yields addr cfg none digest = tt

module _ (lib : Provider) (p : Parser) (local : SocketAddr) (cfg : SecurityConfig) where
  abbrev Checked :
      Option (List ℕ) × Option (FilePath × FilePath)
      → Chars
      → SocketAddr × FilePath × FilePath × List ℕ
      → Type 0
  Checked (digest, pair) remote (addr, cert, key, d) =
      (parse_listen p remote local.port ≡ ok addr)
      × (addr_eq addr local ≡ false)
      × (pair ≡ some (cert, key))
      × (digest ≡ some d)
      × (cfg.fips_strict ≡ true → lib.fips ≡ true)

  remote_checked-Yields :
      (digest : Option (List ℕ)) (pair : Option (FilePath × FilePath)) (remote : Chars)
      → Yields
          (remote_checked lib p local cfg (digest, pair) remote)
          (Checked (digest, pair) remote)
  unfolding remote_checked provider_is_fips
  remote_checked-Yields digest pair remote =
      >>=-Yields (parse_listen p remote local.port) _ _ λ addr a.
        >>=-Yields (refuse_if (addr_eq addr local) (own_address addr)) _ _ λ u apart.
          >>=-Yields (both addr cfg pair digest) _ _ λ (cert, key, d) b.
            >>=-Yields
              (refuse_if (cfg.fips_strict && not (provider_is_fips lib))
                (not_fips cfg.fips_strict_from))
              _ _
              λ v strict.
                let (k, t) = Yields-ok _ _ (both-Yields addr cfg pair digest) b in
                let approved = refuse_if-ok _ _ strict in
                (a, refuse_if-ok _ _ apart, k, t, λ s. ground arith)

  -- A listener for other machines is one that was asked for, on an address that is not the local
  -- listener's, with the token's digest and the certificate and key of the settings. Its key file is
  -- private, and it offers TLS 1.3 alone with the approved suites, by a validated module if
  -- `fips_strict` is on.
  abbrev pub Guarded : Option (Remote lib) → Type 0
  Guarded none = cfg.remote_listen ≡ none
  Guarded (some r) =
      (remote : Chars) × (hex : Chars) × (cert : FilePath) × (key : FilePath) × (cfg.remote_listen
        ≡ some remote)
      × (parse_listen p remote local.port ≡ ok r.addr)
      × (addr_eq r.addr local ≡ false)
      × (cfg.token_sha256 ≡ some hex)
      × (parse_digest hex ≡ ok r.token_digest)
      × (cfg.tls_cert ≡ some cert)
      × (cfg.tls_key ≡ some key)
      × IsPrivate lib key
      × Approved lib r.tls
      × (cfg.fips_strict ≡ true → lib.fips ≡ true)

  abbrev Shielded : Security lib → Type 0
  Shielded s = Guarded s.remote

  served-Yields :
      (remote : Chars) (addr : SocketAddr) (cert key : FilePath) (d : List ℕ)
      (o : Outcome TlsError (ServerConfig lib))
      → server_tls_config lib cert key ≡ o
      → cfg.remote_listen ≡ some remote
      → DigestFrom cfg.token_sha256 (some d)
      → PairFrom cfg.tls_cert cfg.tls_key (some (cert, key))
      → Checked (some d, some (cert, key)) remote (addr, cert, key, d)
      → Yields (served lib (addr, cert, key, d) o) Shielded
  unfolding served
  served-Yields remote addr cert key d (err x) e l t k c = tt
  served-Yields remote addr cert key d (ok tls) e l (inl no_digest) k c = cc
  served-Yields remote addr cert key d (ok tls) e l t (inl no_pair) c = cc
  served-Yields remote addr cert key d (ok tls) e l (inr (hex, d', t, same, h))
        (inr (cert', key', f, g, pair)) (a, apart, _, _, strict) =
      let (private, approved) = server_tls_config-IsApproved lib cert key tls e in
      let token : parse_digest hex ≡ ok d = ground arith in
      let c : cfg.tls_cert ≡ some cert = ground arith in
      let k : cfg.tls_key ≡ some key = ground arith in
      (remote, hex, cert, key, l, a, apart, t, token, c, k, private, approved, strict)

  remote_planned-Yields :
      (remote : Chars) (digest : Option (List ℕ)) (pair : Option (FilePath × FilePath))
      (o : Outcome Refusal (SocketAddr × FilePath × FilePath × List ℕ))
      → cfg.remote_listen ≡ some remote
      → DigestFrom cfg.token_sha256 digest
      → PairFrom cfg.tls_cert cfg.tls_key pair
      → Yields o (Checked (digest, pair) remote)
      → Yields (remote_planned lib cfg o).1 Shielded
  unfolding remote_planned
  remote_planned-Yields remote digest pair (err e) l t k c = tt
  remote_planned-Yields remote digest pair (ok (addr, cert, key, d)) l t k c =
      let (a, apart, f, g, strict) = c in
      served-Yields remote addr cert key d (server_tls_config lib cert key) refl l (rw (← g) t)
        (rw (← f) k) (a, apart, refl, refl, strict)

  planned-Yields :
      (o : Option Chars)
      (settings : Outcome Refusal (Option (List ℕ) × Option (FilePath × FilePath)))
      → cfg.remote_listen ≡ o
      → Yields settings (Settled local cfg)
      → Yields
          (planned lib p local cfg o settings).1
          (λ s. (is_loopback local.ip ≡ true) × Shielded s)
  unfolding planned local_only
  planned-Yields o (err e) l y = tt
  planned-Yields none (ok (digest, pair)) l (home, t, k) = (home, l)
  planned-Yields (some remote) (ok (digest, pair)) l (home, t, k) =
      Yields-and (remote_planned lib cfg (remote_checked lib p local cfg (digest, pair) remote)).1
        Shielded home
        (remote_planned-Yields remote digest pair
          (remote_checked lib p local cfg (digest, pair) remote) l t k
          (remote_checked-Yields digest pair remote))

  -- A configuration is accepted only if the local listener is on a loopback address. The server then
  -- has a listener for other machines only if one was asked for, on an address other than the local
  -- one, with the SHA-256 of the settings as the digest of its token, and with TLS 1.3 alone and the
  -- approved suites and groups, loaded from at least one certificate and a key file that only its
  -- owner may read; and under `fips_strict` only in a build with the FIPS module.
  pub plan-Guarded :
      (s : Security lib)
      → (plan lib p local cfg).1 ≡ ok s
      → (is_loopback local.ip ≡ true) × Guarded s.remote
  unfolding plan
  plan-Guarded s e =
      Yields-ok (plan lib p local cfg).1 (λ t. (is_loopback local.ip ≡ true) × Shielded t)
        (planned-Yields cfg.remote_listen (settled local cfg) refl (settled-Yields local cfg)) e
