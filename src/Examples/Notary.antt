-- ===== src/Examples/Notary.antt =====
-- A toy in place of the cryptography, for the examples: a certificate holds its template and the
-- numbers of two keys. It shows that what is assumed of `Crypto` can be met.
use mcptp.Base.{
  arith, ℕ, ◌+◌, ◌≤◌, ◌≡◌, refl, subst, Bool, true, ◌&&◌, Option, none, some, List, [], ◌∷◌, String,
  Result, failed, ok, ◌==◌, ==_iff, leb, if◌then◌else◌,
}
use mcptp.Mtls.Certificates.{
  Crypto, Content, certificate, private_key, other_bytes, Certificate, ExtKeyUsage,
}
use mcptp.Mtls.Laws.{IsCrypto, Issued, allows, second}

pub record Signed : Type 0 where
  pub template : Certificate
  pub holder : ℕ
  pub signer : ℕ

abbrev pair_of : Content Signed ℕ → Content Signed ℕ → Result String Signed
pair_of (certificate der) (private_key k) = if der.holder == k then ok der else failed "no pair"
pair_of _ _ = failed "no pair"

abbrev pool_of : Content Signed ℕ → Option (List Signed)
pool_of (certificate der) = some (der ∷ [])
pool_of _ = none

abbrev valid_at : ℕ → Certificate → Bool
valid_at now c = leb c.not_before now && leb (now + second) c.not_after

-- `root` signed itself and `leaf`, both are valid, and the leaf allows the usage.
abbrev sound : ℕ → Signed → ExtKeyUsage → Signed → Bool
sound now root u leaf =
    root.signer == root.holder
    && leaf.signer == root.holder
    && root.template.is_ca
    && valid_at now root.template
    && valid_at now leaf.template
    && allows u leaf.template.ext_key_usage

abbrev verify : ℕ → List Signed → List ExtKeyUsage → Signed → Option String
verify now (root ∷ []) (u ∷ []) leaf = if sound now root u leaf then none else some "not verified"
verify _ _ _ _ = some "not verified"

abbrev pub notary : Crypto
notary = record {
  Der = Signed;
  Pkcs8 = ℕ;
  PrivateKey = ℕ;
  PublicKey = ℕ;
  public = λ k. k;
  create_certificate = λ random template parent holder signer.
      ok (record { template = template; holder = holder; signer = signer });
  parse_certificate = λ der. ok der.template;
  marshal_key = ok;
  key_pair = pair_of;
  certs_from_pem = pool_of;
  verify = verify;
}

-- `sound` on its parts.
conjunction : ℕ → ℕ → ℕ → Bool → Bool → Bool → Bool → Option String
conjunction r s k a b c d =
    if r == k && s == k && a && b && c && d then none else some "not verified"

conjunction-none : (r s k : ℕ) (a b c d : Bool) → conjunction r s k a b c d ≡ none → d ≡ true
unfolding conjunction
conjunction-none r s k a b c d h = ground arith

conjunction_of :
    (k : ℕ) (a b c d : Bool)
    → a ≡ true
    → b ≡ true
    → c ≡ true
    → d ≡ true
    → conjunction k k k a b c d ≡ none
unfolding conjunction
conjunction_of k a b c d p q r s = ground arith

valid_at_of :
    (now : ℕ) (c : Certificate)
    → c.not_before ≤ now
    → now + second ≤ c.not_after
    → valid_at now c ≡ true
valid_at_of now c p q = ground arith

verified_lem :
    (now : ℕ) (roots : List Signed) (u : ExtKeyUsage) (der : Signed)
    → verify now roots (u ∷ []) der ≡ none
    → allows u der.template.ext_key_usage ≡ true
unfolding conjunction
verified_lem now [] u der h = cc
verified_lem now (root ∷ []) u der h =
    conjunction-none root.signer der.signer root.holder root.template.is_ca _ _ _ h
verified_lem now (root ∷ _ ∷ _) u der h = cc

pair_refl :
    (der : Signed) (k : ℕ) → der.holder ≡ k → pair_of (certificate der) (private_key k) ≡ ok der
pair_refl der k h = simp ((==_iff der.holder k).1 h)

unwrap : (x y : Signed) → ◌≡◌ {A = Result String Signed} (ok x) (ok y) → x ≡ y
unwrap x y h = cc

verifies_lem :
    (ca_template template : Certificate) (holder : ℕ) (ca leaf : Signed) (now : ℕ) (u : ExtKeyUsage)
    → Issued notary ca_template template holder ca leaf
    → ca_template.is_ca ≡ true
    → allows u template.ext_key_usage ≡ true
    → ca_template.not_before ≤ now
    → now + second ≤ ca_template.not_after
    → template.not_before ≤ now
    → now + second ≤ template.not_after
    → verify now (ca ∷ []) (u ∷ []) leaf ≡ none
unfolding conjunction
verifies_lem ca_template template holder ca leaf now u i is_ca a b c d e =
    let p = unwrap _ ca i.self_signed in
    let q = unwrap _ leaf i.signed in
    subst (λ x. verify now (x ∷ []) (u ∷ []) leaf ≡ none) p
      (subst
        (λ y.
          verify now (record { template = ca_template; holder = i.signer; signer = i.signer } ∷ [])
            (u ∷ []) y
          ≡ none)
        q
        (conjunction_of i.signer ca_template.is_ca _ _ _ is_ca (valid_at_of now ca_template b c)
          (valid_at_of now template d e) a))

usages_lem :
    (template c : Certificate) (der : Signed) (holder signer : ℕ)
    → ◌≡◌ {A = Result String Signed}
        (ok (record { template = template; holder = holder; signer = signer }))
        (ok der)
    → ◌≡◌ {A = Result String Certificate} (ok der.template) (ok c)
    → c.ext_key_usage ≡ template.ext_key_usage
usages_lem template c der holder signer h p = cc

leaf_lem :
    (der leaf : Signed) (key : Content Signed ℕ)
    → pair_of (certificate der) key ≡ ok leaf
    → leaf ≡ der
leaf_lem der leaf (certificate c) h = cc
leaf_lem der leaf (private_key k) h = ground arith
leaf_lem der leaf (other_bytes b) h = cc

pair_lem :
    (template : Certificate) (key signer : ℕ) (der : Signed) (bytes : ℕ)
    → ◌≡◌ {A = Result String Signed}
        (ok (record { template = template; holder = key; signer = signer }))
        (ok der)
    → ◌≡◌ {A = Result String ℕ} (ok key) (ok bytes)
    → pair_of (certificate der) (private_key bytes) ≡ ok der
pair_lem template key signer der bytes h m = pair_refl der bytes cc

-- The toy meets what is assumed.
pub notary-IsCrypto : IsCrypto notary
notary-IsCrypto = record {
  usages =
      λ random template parent public signer der c h p. usages_lem template c der public signer h p;
  verified = λ now roots u der h. (der.template, refl, verified_lem now roots u der h);
  leaf = λ der leaf key h. leaf_lem der leaf key h;
  pair =
      λ random template parent key signer der bytes h m. pair_lem template key signer der bytes h m;
  pool = λ der c h. refl;
  verifies = λ ca_template template holder ca leaf now u i is_ca basic key_usage usages a b c d e.
      verifies_lem ca_template template holder ca leaf now u i is_ca a b c d e;
}
