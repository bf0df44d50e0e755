-- ===== src/Mtls/Roles.antt =====
-- The roles are apart: the certificate of one side is of no use as that of the other.
use mcptp.Base.{
  ℕ, ◌≡◌, ◌≢◌, refl, ◌∙◌, subst, ap, Bool, true, false, Option, none, some, List, [], ◌∷◌, String,
  Bytes, Result, failed, ok, ◌>>=◌, >>=-ok, wrap, wrap-ok,
}
use mcptp.Mtls.Certificates.{
  Crypto, Content, Draws, Certificate, ExtKeyUsage, server_auth, client_auth, certificate,
  generate_leaf, generate_server, generate_client, leaf_template, no_key, not_created, bad_ca,
}
use mcptp.Mtls.Configuration.{
  ServerConfig, ClientConfig, load, server_tls_config, client_tls_config, Read, load_pair, to_pool,
  to_verified, no_pair, no_ca, ConfigError,
}
use mcptp.Mtls.Laws.{IsCrypto, allows}

module _ {E A B D : Type 0} where
  -- Two steps and a third that depends on both, when all succeed.
  two_and_last :
      (r₁ : Result E A) (r₂ : Result E B) (r₃ : A → B → Result E D) (y : D) (b : B)
      → (r₁ >>= (λ x. r₂ >>= (λ k. ◌>>=◌ {B = D × B} (r₃ x k) (λ d. ok (d, k))))) ≡ ok (y, b)
      → (x : A) × (r₁ ≡ ok x) × (r₂ ≡ ok b) × (r₃ x b ≡ ok y)
  two_and_last (failed e) r₂ r₃ y b h = cc
  two_and_last (ok x) (failed e) r₃ y b h = cc
  two_and_last (ok x) (ok k) r₃ y b h = let (d, p, q) = >>=-ok (r₃ x k) _ _ h in (x, refl, cc, cc)

module _ {E A B D : Type 0} where
  -- Four steps, of which the last two depend on others, when all succeed.
  load_steps :
      (r₁ : Result E A) (r₂ : Result E B) (r₃ : B → Result E D) (r₄ : D → A → Result E Unit) (a : A)
      (d : D)
      → (r₁ >>= (λ x. r₂ >>= (λ y. r₃ y >>= (λ z. ◌>>=◌ {B = A × D} (r₄ z x) (λ u. ok (x, z))))))
        ≡ ok (a, d)
      → (b : B) × (r₁ ≡ ok a) × (r₂ ≡ ok b) × (r₃ b ≡ ok d) × (r₄ d a ≡ ok tt)
  load_steps (failed e) r₂ r₃ r₄ a d h = cc
  load_steps (ok x) (failed e) r₃ r₄ a d h = cc
  load_steps (ok x) (ok y) r₃ r₄ a d h =
      let (z, p, h₁) = >>=-ok (r₃ y) _ _ h in
      let (u, q, h₂) = >>=-ok (r₄ z x) _ _ h₁ in (y, cc, refl, cc, cc)

module _ (C : Crypto) where
  -- What the generation of a leaf has done when it succeeds.
  pub generate_leaf-ok :
      (template : ℕ → Bytes → Certificate) (ref_time : ℕ) (ca : C.Der) (ca_priv : C.PrivateKey)
      (d : Draws C) (der : C.Der) (key : C.PrivateKey)
      → generate_leaf C template ref_time ca ca_priv d ≡ ok (der, key)
      → (parsed : Certificate) × (C.parse_certificate ca ≡ ok parsed)
        × (C.create_certificate d.signature
              (template ref_time d.serial)
              parsed
              (C.public key)
              ca_priv
            ≡ ok der)
  unfolding generate_leaf
  generate_leaf-ok template ref_time ca ca_priv d der key h =
      let (c, p, q, r) =
        two_and_last (wrap bad_ca (C.parse_certificate ca)) (wrap no_key d.key)
          (λ c k.
            wrap not_created (
              C.create_certificate d.signature (template ref_time d.serial) c (C.public k) ca_priv))
          der key h in
      (c, wrap-ok bad_ca _ _ p, wrap-ok not_created _ _ r)

  to_verified-ok : (o : Option String) → to_verified C o ≡ ok tt → o ≡ none
  unfolding to_verified
  to_verified-ok none h = refl
  to_verified-ok (some e) h = cc

  -- A configuration that is loaded has its certificate verified.
  load-ok :
      (u : ExtKeyUsage) (now : ℕ) (ca key : Read C) (der leaf : C.Der) (pool : List C.Der)
      → load C u now ca (ok (certificate der)) key ≡ ok (leaf, pool)
      → (k : Content C.Der C.Pkcs8) × (C.key_pair (certificate der) k ≡ ok leaf)
        × (C.verify now pool (u ∷ []) leaf ≡ none)
  unfolding load load_pair
  load-ok u now ca key der leaf pool h =
      let (pem, p, q, r, t) =
        load_steps (wrap no_pair (load_pair C (ok (certificate der)) key)) (wrap no_ca ca)
          (λ c. to_pool C (C.certs_from_pem c)) (λ z x. to_verified C (C.verify now z (u ∷ []) x))
          leaf pool h in
      let (k, m, n) = >>=-ok key _ leaf (wrap-ok no_pair _ _ p) in (k, n, to_verified-ok _ t)

module _ (C : Crypto) (is_crypto : IsCrypto C) where
  clash : {b : Bool} → b ≡ true → b ≡ false → ⊥
  clash p q = cc

  -- What a client that is configured says of a peer.
  connection : ℕ → C.Der → Result ConfigError (ClientConfig C) → Option String
  connection time peer (failed e) = none
  connection time peer (ok c) = c.verify_connection time peer

  -- A leaf is not verified for a usage that its template does not allow.
  leaf-refused :
      (name : String) (mine theirs : ExtKeyUsage) (ref_time : ℕ) (ca : C.Der)
      (ca_priv : C.PrivateKey) (d : Draws C) (der : C.Der) (key : C.PrivateKey) (now : ℕ)
      (roots : List C.Der)
      → generate_leaf C (leaf_template name mine) ref_time ca ca_priv d ≡ ok (der, key)
      → allows theirs (mine ∷ []) ≡ false
      → C.verify now roots (theirs ∷ []) der ≢ none
  unfolding leaf_template
  leaf-refused name mine theirs ref_time ca ca_priv d der key now roots h f v =
      let (p, q, r) =
        generate_leaf-ok C (leaf_template name mine) ref_time ca ca_priv d der key h in
      let (c, parsed, a) = is_crypto.verified now roots theirs der v in
      let e = is_crypto.usages d.signature _ p _ ca_priv der c r parsed in
      clash (subst (λ us. allows theirs us ≡ true) e a) f

  -- A configuration that is loaded holds the certificate that it is given, verified for its usage.
  load-verified :
      (u : ExtKeyUsage) (now : ℕ) (ca key : Read C) (der leaf : C.Der) (pool : List C.Der)
      → load C u now ca (ok (certificate der)) key ≡ ok (leaf, pool)
      → C.verify now pool (u ∷ []) der ≡ none
  load-verified u now ca key der leaf pool h =
      let (k, p, q) = load-ok C u now ca key der leaf pool h in
      subst (λ x. C.verify now pool (u ∷ []) x ≡ none) (is_crypto.leaf der leaf k p) q

  -- The certificate that `GenerateServer` makes gives no configuration to a client, that of
  -- `GenerateClient` gives none to a server, and a client that is configured refuses a peer that
  -- shows the certificate of a client. Each of the three is at any time and with any other files, for
  -- any cryptography that keeps its documented promises.
  pub roles_apart :
      (ref_time : ℕ) (ca : C.Der) (ca_priv : C.PrivateKey) (d e : Draws C) (server client : C.Der)
      (server_key client_key : C.PrivateKey) (at_client at_server now time : ℕ)
      (client_pem client_file server_pem server_file pem cert key : Read C) (c c' : ClientConfig C)
      (s : ServerConfig C)
      → generate_server C ref_time ca ca_priv d ≡ ok (server, server_key)
      → generate_client C ref_time ca ca_priv e ≡ ok (client, client_key)
      → client_tls_config C now pem cert key ≡ ok c
      → (client_tls_config C at_client client_pem (ok (certificate server)) client_file ≢ ok c')
        × (server_tls_config C at_server server_pem (ok (certificate client)) server_file ≢ ok s)
        × (c.verify_connection time client ≢ none)
  unfolding generate_server generate_client server_tls_config client_tls_config connection
  roles_apart ref_time ca ca_priv d e server client server_key client_key at_client at_server now
        time client_pem client_file server_pem server_file pem cert key c c' s h k l =
      (
        (λ p.
            let ((leaf, pool), q, r) =
              >>=-ok (load C client_auth at_client client_pem (ok (certificate server)) client_file)
                _ c' p in
            leaf-refused "mcptp-server" server_auth client_auth ref_time ca ca_priv d server
              server_key at_client pool h refl
              (load-verified client_auth at_client client_pem client_file server leaf pool q)),
        (λ p.
            let ((leaf, pool), q, r) =
              >>=-ok (load C server_auth at_server server_pem (ok (certificate client)) server_file)
                _ s p in
            leaf-refused "mcptp-client" client_auth server_auth ref_time ca ca_priv e client
              client_key at_server pool k refl
              (load-verified server_auth at_server server_pem server_file client leaf pool q)),
        (λ v.
            let ((leaf, pool), q, r) = >>=-ok (load C client_auth now pem cert key) _ c l in
            leaf-refused "mcptp-client" client_auth server_auth ref_time ca ca_priv e client
              client_key time pool k refl (ap (connection time client) r ∙ v)),
      )
