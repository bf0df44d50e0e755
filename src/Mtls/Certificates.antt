-- ===== src/Mtls/Certificates.antt =====
-- protocol/mtls.go, generation: the templates of the certificates, and the calls that sign them.
use mcptp.Base.{
  ℕ, ◌+◌, ◌*◌, Bool, true, false, Option, List, [], ◌∷◌, String, Bytes, Result, ok, ◌>>=◌, wrap,
}

-- `x509.ExtKeyUsage`: the two that the program uses, and the others.
pub data ExtKeyUsage : Type 0 where
  any_usage server_auth client_auth : ExtKeyUsage
  other_usage : ℕ → ExtKeyUsage

pub data KeyUsage : Type 0 where
  cert_sign digital_signature : KeyUsage
  other_key_usage : ℕ → KeyUsage

-- `pkix.Name`
pub record Name : Type 0 where
  pub organization : List String
  pub common_name : String

-- The fields of `x509.Certificate` that the templates set; a time is in nanoseconds.
pub record Certificate : Type 0 where
  pub serial_number : ℕ
  pub subject : Name
  pub not_before : ℕ
  pub not_after : ℕ
  pub is_ca : Bool
  pub basic_constraints_valid : Bool
  pub key_usage : List KeyUsage
  pub ext_key_usage : List ExtKeyUsage
  pub max_path_len : ℕ
  pub max_path_len_zero : Bool

-- What a file of the output directory holds: a PEM block with a certificate or with a private key,
-- or other bytes.
pub data Content (Der Pkcs8 : Type 0) : Type 0 where
  certificate : Der → Content Der Pkcs8
  private_key : Pkcs8 → Content Der Pkcs8
  other_bytes : Bytes → Content Der Pkcs8

-- What is used of crypto/x509, crypto/ecdsa and crypto/tls. The first argument of
-- `create_certificate` is the randomness of the signature; that of `verify` is the time now.
pub record Crypto : Type 1 where
  pub Der : Type 0
  pub Pkcs8 : Type 0
  pub PrivateKey : Type 0
  pub PublicKey : Type 0
  pub public : PrivateKey → PublicKey
  pub create_certificate :
      Bytes → Certificate → Certificate → PublicKey → PrivateKey → Result String Der
  pub parse_certificate : Der → Result String Certificate
  pub marshal_key : PrivateKey → Result String Pkcs8
  pub key_pair : Content Der Pkcs8 → Content Der Pkcs8 → Result String Der
  pub certs_from_pem : Content Der Pkcs8 → Option (List Der)
  pub verify : ℕ → List Der → List ExtKeyUsage → Der → Option String

-- What one generation draws: the answer of `ecdsa.GenerateKey`, the bytes of the serial number, and
-- the randomness of the signature.
pub record Draws (C : Crypto) : Type 0 where
  pub key : Result String C.PrivateKey
  pub serial : Bytes
  pub signature : Bytes

-- `mTLSValidity`: 10 * 365 * 24 hours.
abbrev pub validity : ℕ
validity = 10 * 365 * 24 * 3600 * 1000000000

-- `big.Int.SetBytes`: the bytes as a number, the first one the highest.
set_bytes : ℕ → Bytes → ℕ
set_bytes n [] = n
set_bytes n (b ∷ bs) = set_bytes (256 * n + b) bs

-- `newSerial`, from the 16 bytes that are drawn.
unfoldable pub new_serial : Bytes → ℕ
unfolding set_bytes
new_serial bytes = set_bytes 0 bytes

unfoldable pub ca_template : ℕ → Bytes → Certificate
ca_template ref_time serial = record {
  serial_number = new_serial serial;
  subject = record { organization = "mcptp" ∷ []; common_name = "mcptp-CA" };
  not_before = ref_time;
  not_after = ref_time + validity;
  is_ca = true;
  basic_constraints_valid = true;
  key_usage = cert_sign ∷ [];
  ext_key_usage = [];
  max_path_len = 0;
  max_path_len_zero = true;
}

-- The templates of the server and of the client differ in the name and in the usage.
unfoldable pub leaf_template : String → ExtKeyUsage → ℕ → Bytes → Certificate
leaf_template name usage ref_time serial = record {
  serial_number = new_serial serial;
  subject = record { organization = "mcptp" ∷ []; common_name = name };
  not_before = ref_time;
  not_after = ref_time + validity;
  is_ca = false;
  basic_constraints_valid = true;
  key_usage = digital_signature ∷ [];
  ext_key_usage = usage ∷ [];
  max_path_len = 0;
  max_path_len_zero = false;
}

pub data GenerateError : Type 0 where
  bad_ca : String → GenerateError  -- "failed to parse CA certificate: …"
  no_key : String → GenerateError  -- "failed to generate an ECDSA P-256 key: …"
  not_created : String → GenerateError  -- "failed to create … certificate: …"

module _ (C : Crypto) where
  -- `GenerateCA`
  unfoldable pub generate_ca : ℕ → Draws C → Result GenerateError (C.Der × C.PrivateKey)
  generate_ca ref_time d = do
    ca ← wrap no_key d.key
    let template = ca_template ref_time d.serial
    der ← wrap not_created (C.create_certificate d.signature template template (C.public ca) ca)
    ok (der, ca)

  -- `GenerateServer` and `GenerateClient`, which share their steps.
  unfoldable pub generate_leaf :
      (ℕ → Bytes → Certificate)
      → ℕ
      → C.Der
      → C.PrivateKey
      → Draws C
      → Result GenerateError (C.Der × C.PrivateKey)
  generate_leaf template ref_time ca_der ca_priv d = do
    ca_cert ← wrap bad_ca (C.parse_certificate ca_der)
    key ← wrap no_key d.key
    der ← wrap not_created (
        C.create_certificate d.signature (template ref_time d.serial) ca_cert (C.public key)
          ca_priv)
    ok (der, key)

  unfoldable pub generate_server :
      ℕ → C.Der → C.PrivateKey → Draws C → Result GenerateError (C.Der × C.PrivateKey)
  generate_server = generate_leaf (leaf_template "mcptp-server" server_auth)

  unfoldable pub generate_client :
      ℕ → C.Der → C.PrivateKey → Draws C → Result GenerateError (C.Der × C.PrivateKey)
  generate_client = generate_leaf (leaf_template "mcptp-client" client_auth)
