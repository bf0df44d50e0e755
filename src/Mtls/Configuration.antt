-- ===== src/Mtls/Configuration.antt =====
-- protocol/mtls.go, `GetServerTLSConfig` and `GetClientTLSConfig`: what each side loads, what it
-- checks before it starts, and what it asks of its peer.
use mcptp.Base.{
  ℕ, Bool, true, Option, none, some, List, [], ◌∷◌, String, Result, failed, ok, ◌>>=◌, wrap,
}
use mcptp.Mtls.Certificates.{Crypto, Content, ExtKeyUsage, server_auth, client_auth}

-- `certificates`: the own one; `tls_min_version` is 13 for TLS 1.3.
pub record ServerConfig (C : Crypto) : Type 0 where
  pub certificate : C.Der
  pub client_cas : List C.Der
  pub require_client_cert : Bool  -- `tls.RequireAndVerifyClientCert`
  pub min_version : ℕ

pub record ClientConfig (C : Crypto) : Type 0 where
  pub certificate : C.Der
  pub root_cas : List C.Der
  pub min_version : ℕ
  pub insecure_skip_verify : Bool
  -- from the time now and the first certificate of the peer; `none` is the error nil
  pub verify_connection : ℕ → C.Der → Option String

pub data ConfigError : Type 0 where
  no_pair : String → ConfigError  -- "failed to load … cert and key: …"
  no_ca : String → ConfigError  -- "failed to read CA cert: …"
  bad_ca_file : ConfigError  -- "invalid … file"
  not_verified : String → ConfigError  -- "failed to verify … certificate: …"

module _ (C : Crypto) where
  abbrev pub Read : Type 0
  Read = Result String (Content C.Der C.Pkcs8)

  -- `tls.LoadX509KeyPair`, on what reading the two files gives.
  unfoldable pub load_pair : Read → Read → Result String C.Der
  load_pair cert key = do c ← cert; k ← key; C.key_pair c k

  unfoldable pub to_pool : Option (List C.Der) → Result ConfigError (List C.Der)
  to_pool none = failed bad_ca_file
  to_pool (some ders) = ok ders

  unfoldable pub to_verified : Option String → Result ConfigError Unit
  to_verified none = ok tt
  to_verified (some e) = failed (not_verified e)

  -- The steps that both functions begin with: the own certificate and the pool, the certificate
  -- verified for a usage.
  unfoldable pub load :
      ExtKeyUsage → ℕ → (ca cert key : Read) → Result ConfigError (C.Der × List C.Der)
  load usage now ca cert key = do
    leaf ← wrap no_pair (load_pair cert key)
    ca_pem ← wrap no_ca ca
    pool ← to_pool (C.certs_from_pem ca_pem)
    _ ← to_verified (C.verify now pool (usage ∷ []) leaf)
    ok (leaf, pool)

  abbrev pub server_config : C.Der → List C.Der → ServerConfig C
  server_config leaf pool = record {
    certificate = leaf;
    client_cas = pool;
    require_client_cert = true;
    min_version = 13;
  }

  abbrev pub client_config : C.Der → List C.Der → ClientConfig C
  client_config leaf pool = record {
    certificate = leaf;
    root_cas = pool;
    min_version = 13;
    insecure_skip_verify = true;
    verify_connection = λ time peer. C.verify time pool (server_auth ∷ []) peer;
  }

  -- `GetServerTLSConfig`
  unfoldable pub server_tls_config : ℕ → (ca cert key : Read) → Result ConfigError (ServerConfig C)
  server_tls_config now ca cert key = do
    (leaf, pool) ← load server_auth now ca cert key
    ok (server_config leaf pool)

  -- `GetClientTLSConfig`
  unfoldable pub client_tls_config : ℕ → (ca cert key : Read) → Result ConfigError (ClientConfig C)
  client_tls_config now ca cert key = do
    (leaf, pool) ← load client_auth now ca cert key
    ok (client_config leaf pool)
