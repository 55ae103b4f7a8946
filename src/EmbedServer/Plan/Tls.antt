-- ===== src/EmbedServer/Plan/Tls.antt =====
-- crates/m3-embed-server/src/security.rs: the TLS configuration, loaded from the certificate and a
-- key file that no other user may read (on Unix).
use m3_core_rs.Base.{
  ℕ, ◌%◌, ◌≡◌, refl, Bool, false, not, List, [], ◌∷◌, ◌==◌, Text, ascii, is_empty, arith, length,
  ◌<◌,
}
use m3_core_rs.EmbedServer.{
  Outcome, ok, err, ◌>>=◌, ◌>>◌, steps_of, refuse_if, refuse_if-ok, not_refused, Yields-ok,
  >>=-Yields,
}

abbrev pub FilePath : Type 0
FilePath = Text

pub data Suite : Type 0 where
  tls13_aes_256_gcm_sha384 tls13_aes_128_gcm_sha256 : Suite

pub data Group : Type 0 where
  secp384r1 secp256r1 : Group

pub data Version : Type 0 where
  tls13 : Version

pub data PemError : Type 0 where
  io : Text → PemError
  no_items_found missing_section_end illegal_section_start base64_decode other : PemError

-- rustls, its PEM reader and aws-lc-rs, and `fs::metadata` for the mode of a file.
pub record Provider : Type 1 where
  pub Certificate : Type 0
  pub PrivateKey : Type 0
  pub fips : Bool
  pub mode : FilePath → Outcome Text ℕ
  pub pem_file_iter : FilePath → Outcome Text (List (Outcome Text Certificate))
  pub from_pem_file : FilePath → Outcome PemError PrivateKey
  pub with_protocol_versions : List Suite → List Group → List Version → Outcome Text (Unit {0})
  pub with_single_cert : List Certificate → PrivateKey → Outcome Text (Unit {0})

-- A refusal keeps what its message is made of: the path, and what went wrong with it.
pub data TlsError : Type 0 where
  key_unreadable cert_unreadable cert_unparsable key_io : FilePath → Text → TlsError
  key_readable_by_others : FilePath → ℕ → TlsError
  no_certificate no_private_key : FilePath → TlsError
  key_unparsable : FilePath → Text → TlsError
  setup_failed : Text → TlsError
  no_pair : FilePath → FilePath → Text → TlsError

abbrev map_err {ℓ} : {E : Type 0} {A : Type ℓ} → (E → TlsError) → Outcome E A → Outcome TlsError A
map_err f (ok a) = ok a
map_err f (err e) = err (f e)

key_error : FilePath → PemError → TlsError
key_error key (io e) = key_io key e
key_error key no_items_found = no_private_key key
key_error key missing_section_end = key_unparsable key (ascii "a PEM section has no END line")
key_error key illegal_section_start = key_unparsable key (ascii "a PEM BEGIN line is malformed")
key_error key base64_decode = key_unparsable key (ascii "a PEM section is not valid base64")
key_error key other = key_unparsable key (ascii "it is not valid PEM")

-- `approved_provider`.
abbrev pub cipher_suites : List Suite
cipher_suites = tls13_aes_256_gcm_sha384 ∷ tls13_aes_128_gcm_sha256 ∷ []

abbrev pub kx_groups : List Group
kx_groups = secp384r1 ∷ secp256r1 ∷ []

map_err-ok :
    {E A : Type 0} (f : E → TlsError) (o : Outcome E A) {a : A} → map_err f o ≡ ok a → o ≡ ok a
map_err-ok f (ok a) e = ground arith
map_err-ok f (err x) e = cc

filled : {A : Type 0} (xs : List A) → is_empty xs ≡ false → 0 < length xs
filled [] h = cc
filled (x ∷ xs) h = omega arith

module _ (lib : Provider) where
  open lib use {
    Certificate, PrivateKey, fips, mode, pem_file_iter, from_pem_file, with_protocol_versions,
    with_single_cert,
  }

  pub record ServerConfig : Type 0 where
    pub suites : List Suite
    pub groups : List Group
    pub versions : List Version
    pub client_auth : Bool
    pub chain : List Certificate
    pub key : PrivateKey
    pub alpn_protocols : List Text

  unfoldable pub provider_is_fips : Bool
  provider_is_fips = fips

  -- The lower nine bits of the mode, of which six are those of the group and of others.
  unfoldable pub check_key_file_private : FilePath → Outcome TlsError (Unit {0})
  check_key_file_private key = do
    meta ← map_err (key_unreadable key) (mode key)
    let m = meta % 0o1000
    refuse_if (not (m % 0o100 == 0)) (key_readable_by_others key m)

  -- `collect`: the first certificate that fails is the error.
  collect : List (Outcome Text Certificate) → Outcome Text (List Certificate)
  collect [] = ok []
  collect (c ∷ cs) = do ok ((← c) ∷ (← collect cs))

  unfoldable pub server_tls_config : FilePath → FilePath → Outcome TlsError ServerConfig
  unfolding check_key_file_private collect key_error
  server_tls_config cert key = do
    check_key_file_private key
    items ← map_err (cert_unreadable cert) (pem_file_iter cert)
    certs ← map_err (cert_unparsable cert) (collect items)
    refuse_if (is_empty certs) (no_certificate cert)
    key_der ← map_err (key_error key) (from_pem_file key)
    map_err setup_failed (with_protocol_versions cipher_suites kx_groups (tls13 ∷ []))
    map_err (no_pair cert key) (with_single_cert certs key_der)
    let made : ServerConfig = record {
      suites = cipher_suites;
      groups = kx_groups;
      versions = tls13 ∷ [];
      client_auth = false;
      chain = certs;
      key = key_der;
      alpn_protocols = ascii "http/1.1" ∷ [];
    }
    ok made

  -- Only the owner may read the key file: no bit of its mode is set for the group or for others.
  abbrev pub IsPrivate : FilePath → Type 0
  IsPrivate key = (meta : ℕ) × (mode key ≡ ok meta) × (meta % 0o100 ≡ 0)

  abbrev pub Approved : ServerConfig → Type 0
  Approved made =
      (0 < length made.chain)
      × (made.versions ≡ tls13 ∷ [])
      × (made.suites ≡ cipher_suites)
      × (made.groups ≡ kx_groups)

  check_key_file_private-IsPrivate :
      (key : FilePath) → check_key_file_private key ≡ ok tt → IsPrivate key
  unfolding check_key_file_private
  check_key_file_private-IsPrivate key e =
      let (meta, m, r) = steps_of (map_err (key_unreadable key) (mode key)) _ e in
      let low = not_refused _ _ r in (meta, map_err-ok _ _ m, ground arith)

  -- A TLS configuration is loaded only from a private key file and at least one certificate, and
  -- offers TLS 1.3 alone with the approved suites and groups.
  pub server_tls_config-IsApproved :
      (cert key : FilePath) (made : ServerConfig)
      → server_tls_config cert key ≡ ok made
      → IsPrivate key × Approved made
  unfolding server_tls_config
  server_tls_config-IsApproved cert key made e =
      Yields-ok (server_tls_config cert key) (λ m. IsPrivate key × Approved m)
        (>>=-Yields (check_key_file_private key) _ _ λ u private.
          >>=-Yields (map_err (cert_unreadable cert) (pem_file_iter cert)) _ _ λ items i.
            >>=-Yields (map_err (cert_unparsable cert) (collect items)) _ _ λ certs c.
              >>=-Yields (refuse_if (is_empty certs) (no_certificate cert)) _ _ λ v full.
                >>=-Yields (map_err (key_error key) (from_pem_file key)) _ _ λ k d.
                  >>=-Yields
                    (map_err setup_failed
                      (with_protocol_versions cipher_suites kx_groups (tls13 ∷ [])))
                    _ _
                    λ w p.
                      >>=-Yields (map_err (no_pair cert key) (with_single_cert certs k)) _ _ λ x q.
                        (
                          check_key_file_private-IsPrivate key private,
                          (filled certs (refuse_if-ok _ _ full), refl, refl, refl),
                        ))
        e
