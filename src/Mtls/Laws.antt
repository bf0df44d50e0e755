-- ===== src/Mtls/Laws.antt =====
-- What the documentation of crypto/x509 and crypto/tls promises, as far as the certificates and the
-- configurations rely on it.
use mcptp.Base.{
  ℕ, ◌+◌, ◌≤◌, ◌≡◌, Bool, true, false, none, some, List, [], ◌∷◌, ◌||◌, Bytes, ok, ◌==◌,
}
use mcptp.Mtls.Certificates.{
  Crypto, Content, certificate, private_key, Certificate, ExtKeyUsage, any_usage, server_auth,
  client_auth, other_usage, cert_sign,
}

abbrev eq_usage : ExtKeyUsage → ExtKeyUsage → Bool
eq_usage any_usage any_usage = true
eq_usage server_auth server_auth = true
eq_usage client_auth client_auth = true
eq_usage (other_usage m) (other_usage n) = m == n
eq_usage _ _ = false

abbrev has_usage : ExtKeyUsage → List ExtKeyUsage → Bool
has_usage u [] = false
has_usage u (v ∷ vs) = eq_usage u v || has_usage u vs

-- A certificate without usages allows all.
abbrev pub allows : ExtKeyUsage → List ExtKeyUsage → Bool
allows u [] = true
allows u (v ∷ vs) = has_usage u (v ∷ vs) || has_usage any_usage (v ∷ vs)

-- The times in a certificate are whole seconds, rounded down.
abbrev pub second : ℕ
second = 1000000000

module _ (C : Crypto) where
  -- `ca` was signed by a key for itself, and `leaf` by that key, for `holder` and under `ca`.
  pub record Issued (ca_template template : Certificate) (holder : C.PublicKey) (ca leaf : C.Der)
      : Type 0 where
    pub signer : C.PrivateKey
    pub parsed : Certificate
    pub self_signature : Bytes
    pub signature : Bytes
    pub self_signed :
        C.create_certificate self_signature ca_template ca_template (C.public signer) signer ≡ ok ca
    pub parses : C.parse_certificate ca ≡ ok parsed
    pub signed : C.create_certificate signature template parsed holder signer ≡ ok leaf

  pub record IsCrypto : Type 0 where
    -- a certificate has the usages of its template
    pub usages :
        (random : Bytes) (template parent : Certificate) (public : C.PublicKey)
        (signer : C.PrivateKey) (der : C.Der) (c : Certificate)
        → C.create_certificate random template parent public signer ≡ ok der
        → C.parse_certificate der ≡ ok c
        → c.ext_key_usage ≡ template.ext_key_usage
    -- a certificate that is verified for a usage parses and allows it
    pub verified :
        (now : ℕ) (roots : List C.Der) (u : ExtKeyUsage) (der : C.Der)
        → C.verify now roots (u ∷ []) der ≡ none
        → (c : Certificate) × (C.parse_certificate der ≡ ok c) × (allows u c.ext_key_usage ≡ true)
    -- the leaf of a key pair is the certificate of the file
    pub leaf :
        (der leaf : C.Der) (key : Content C.Der C.Pkcs8)
        → C.key_pair (certificate der) key ≡ ok leaf
        → leaf ≡ der
    -- a certificate and the key that it is made for are a pair
    pub pair :
        (random : Bytes) (template parent : Certificate) (key signer : C.PrivateKey) (der : C.Der)
        (bytes : C.Pkcs8)
        → C.create_certificate random template parent (C.public key) signer ≡ ok der
        → C.marshal_key key ≡ ok bytes
        → C.key_pair (certificate der) (private_key bytes) ≡ ok der
    -- a certificate that parses is read into a pool
    pub pool :
        (der : C.Der) (c : Certificate)
        → C.parse_certificate der ≡ ok c
        → C.certs_from_pem (certificate der) ≡ some (der ∷ [])
    -- a certificate is verified if an authority in the pool has signed it, the authority may sign,
    -- the usage is allowed, and both are valid now
    pub verifies :
        (ca_template template : Certificate) (holder : C.PublicKey) (ca leaf : C.Der) (now : ℕ)
        (u : ExtKeyUsage)
        → Issued ca_template template holder ca leaf
        → ca_template.is_ca ≡ true
        → ca_template.basic_constraints_valid ≡ true
        → ca_template.key_usage ≡ cert_sign ∷ []
        → allows u ca_template.ext_key_usage ≡ true
        → allows u template.ext_key_usage ≡ true
        → ca_template.not_before ≤ now
        → now + second ≤ ca_template.not_after
        → template.not_before ≤ now
        → now + second ≤ template.not_after
        → C.verify now (ca ∷ []) (u ∷ []) leaf ≡ none
