-- ===== src/Mtls/Bundle.antt =====
-- The files of a command that does not fail serve both sides.
use mcptp.Base.{
  ℕ, Bytes, ◌+◌, ◌≤◌, ◌≡◌, refl, subst, true, Option, none, some, List, [], ◌∷◌, String, Result,
  failed, ok, >>=-ok, wrap, wrap-ok,
}
use mcptp.Mtls.Certificates.{
  Crypto, Content, Draws, ExtKeyUsage, server_auth, client_auth, certificate, private_key,
  generate_ca, generate_server, generate_client, ca_template, leaf_template, no_key, not_created,
  validity,
}
use mcptp.Mtls.Command.{
  Disk, read, World, Bundle, ActionError, generate, write_all, write_made, write_generated, action,
  in_ca, in_server, in_client,
}
use mcptp.Mtls.Configuration.{
  ServerConfig, ClientConfig, load, server_config, client_config, load_pair, to_pool, to_verified,
  server_tls_config, client_tls_config,
}
use mcptp.Mtls.Files.{write_all-Stored}
use mcptp.Mtls.Laws.{IsCrypto, Issued, allows, second}
use mcptp.Mtls.Roles.{generate_leaf-ok}

module _ (C : Crypto) where
  same_key :
      {E : Type 0} (f : C.PrivateKey → Result String C.Der) (made der : C.Der) (ca k : C.PrivateKey)
      → f ca ≡ ok made
      → ◌≡◌ {A = Result E (C.Der × C.PrivateKey)} (ok (made, ca)) (ok (der, k))
      → f k ≡ ok der
  same_key f made der ca k p q = cc

  unwrap : (x y : Bundle C) → ◌≡◌ {A = Result ActionError (Bundle C)} (ok x) (ok y) → x ≡ y
  unwrap x y h = cc

  generate_ca-ok :
      (ref_time : ℕ) (d : Draws C) (der : C.Der) (k : C.PrivateKey)
      → generate_ca C ref_time d ≡ ok (der, k)
      → C.create_certificate d.signature
          (ca_template ref_time d.serial)
          (ca_template ref_time d.serial)
          (C.public k)
          k
        ≡ ok der
  unfolding generate_ca
  generate_ca-ok ref_time d der k h =
      let (ca, p, h₁) = >>=-ok (wrap no_key d.key) _ _ h in
      let (made, q, h₂) =
        >>=-ok
          (wrap not_created (
            C.create_certificate d.signature (ca_template ref_time d.serial)
              (ca_template ref_time d.serial) (C.public ca) ca))
          _ _ h₁ in
      same_key
        (λ key.
          C.create_certificate d.signature (ca_template ref_time d.serial)
            (ca_template ref_time d.serial) (C.public key) key)
        made der ca k (wrap-ok not_created _ _ q) h₂

  -- The two certificates of a bundle, as issued to their keys.
  record Good (w : World C) (b : Bundle C) : Type 0 where
    server :
        Issued C
          (ca_template w.ref_time w.ca.serial)
          (leaf_template "mcptp-server" server_auth w.ref_time w.server.serial)
          (C.public b.server_priv)
          b.ca_der
          b.server_der
    client :
        Issued C
          (ca_template w.ref_time w.ca.serial)
          (leaf_template "mcptp-client" client_auth w.ref_time w.client.serial)
          (C.public b.client_priv)
          b.ca_der
          b.client_der

  generate-Good : (w : World C) (b : Bundle C) → generate C w ≡ ok b → Good w b
  unfolding generate generate_server generate_client
  generate-Good w b h =
      let ((ca, k), p₁, h₁) = >>=-ok (wrap in_ca (generate_ca C w.ref_time w.ca)) _ _ h in
      let ((s, sk), p₂, h₂) =
        >>=-ok (wrap in_server (generate_server C w.ref_time ca k w.server)) _ _ h₁ in
      let ((c, ck), p₃, h₃) =
        >>=-ok (wrap in_client (generate_client C w.ref_time ca k w.client)) _ _ h₂ in
      let self = generate_ca-ok w.ref_time w.ca ca k (wrap-ok in_ca _ _ p₁) in
      let (parsed, ps, ss) =
        generate_leaf-ok C _ w.ref_time ca k w.server s sk (wrap-ok in_server _ _ p₂) in
      let (parsed', pc, sc) =
        generate_leaf-ok C _ w.ref_time ca k w.client c ck (wrap-ok in_client _ _ p₃) in
      subst (Good w) (unwrap _ _ h₃) (record {
        server = record {
          signer = k;
          parsed = parsed;
          self_signature = w.ca.signature;
          signature = w.server.signature;
          self_signed = self;
          parses = ps;
          signed = ss;
        };
        client = record {
          signer = k;
          parsed = parsed';
          self_signature = w.ca.signature;
          signature = w.client.signature;
          self_signed = self;
          parses = pc;
          signed = sc;
        };
      })

  load_complete :
      (u : ExtKeyUsage) (now : ℕ) (pem c k : Content C.Der C.Pkcs8) (leaf : C.Der)
      (pool : List C.Der)
      → C.key_pair c k ≡ ok leaf
      → C.certs_from_pem pem ≡ some pool
      → C.verify now pool (u ∷ []) leaf ≡ none
      → load C u now (ok pem) (ok c) (ok k) ≡ ok (leaf, pool)
  unfolding load load_pair to_pool to_verified
  load_complete u now pem c k leaf pool p q v = simp (p, q, v)

  write_made-ok :
      (w : World C) (b : Bundle C) (o : Option String) (d d' : Disk C)
      → write_made C w b o d ≡ (d', none)
      → write_all C w b d ≡ (d', none)
  unfolding write_made
  write_made-ok w b none d d' h = h
  write_made-ok w b (some e) d d' h = cc

  write_generated-ok :
      (w : World C) (r : Result ActionError (Bundle C)) (d d' : Disk C)
      → write_generated C w r d ≡ (d', none)
      → (b : Bundle C) × (r ≡ ok b) × (write_all C w b d ≡ (d', none))
  unfolding write_generated
  write_generated-ok w (failed e) d d' h = cc
  write_generated-ok w (ok b) d d' h = (b, refl, write_made-ok w b w.directory d d' h)

module _ (C : Crypto) (is_crypto : IsCrypto C) where
  -- A leaf of a usage, issued under the authority, is verified for the usage while it is valid.
  verify_of_Issued :
      (ref_time now : ℕ) (ca_serial serial : Bytes) (name : String) (u : ExtKeyUsage)
      (holder : C.PublicKey) (ca leaf : C.Der)
      → Issued C
          (ca_template ref_time ca_serial)
          (leaf_template name u ref_time serial)
          holder
          ca
          leaf
      → allows u (u ∷ []) ≡ true
      → ref_time ≤ now
      → now + second ≤ ref_time + validity
      → C.verify now (ca ∷ []) (u ∷ []) leaf ≡ none
  unfolding ca_template leaf_template
  verify_of_Issued ref_time now ca_serial serial name u holder ca leaf i h from until =
      is_crypto.verifies _ _ holder ca leaf now u i refl refl refl refl h from until from until

  -- And loads.
  load_of_Issued :
      (ref_time now : ℕ) (ca_serial serial : Bytes) (name : String) (u : ExtKeyUsage)
      (key : C.PrivateKey) (bytes : C.Pkcs8) (ca leaf : C.Der)
      → Issued C
          (ca_template ref_time ca_serial)
          (leaf_template name u ref_time serial)
          (C.public key)
          ca
          leaf
      → C.marshal_key key ≡ ok bytes
      → C.verify now (ca ∷ []) (u ∷ []) leaf ≡ none
      → load C u now (ok (certificate ca)) (ok (certificate leaf)) (ok (private_key bytes))
        ≡ ok (leaf, ca ∷ [])
  load_of_Issued ref_time now ca_serial serial name u key bytes ca leaf i m v =
      load_complete C u now _ _ _ leaf (ca ∷ [])
        (is_crypto.pair i.signature _ i.parsed key i.signer leaf bytes i.signed m)
        (is_crypto.pool ca i.parsed i.parses) v

  -- After a run of the command that returns nil, whatever was in the directory, and while the
  -- certificates are valid: the server and the client that are given its files are configured, the
  -- client accepts the certificate of the server, and the certificate of the client is verified
  -- against the authorities of the server.
  pub action-serves :
      (w : World C) (d d' : Disk C) (now : ℕ)
      → action C w d ≡ (d', none)
      → w.ref_time ≤ now
      → now + second ≤ w.ref_time + validity
      → (s : ServerConfig C) × (c : ClientConfig C) × (server_tls_config C now
            (read C "ca.crt" d')
            (read C "server.crt" d')
            (read C "server.key" d')
          ≡ ok s)
        × (client_tls_config C now
              (read C "ca.crt" d')
              (read C "client.crt" d')
              (read C "client.key" d')
            ≡ ok c)
        × (c.verify_connection now s.certificate ≡ none)
        × (C.verify now s.client_cas (client_auth ∷ []) c.certificate ≡ none)
  unfolding action server_tls_config client_tls_config
  action-serves w d d' now h from until =
      let (b, p, q) = write_generated-ok C w (generate C w) d d' h in
      let good = generate-Good C w b p in
      let files = write_all-Stored C w b d d' q in
      let vs =
        verify_of_Issued w.ref_time now w.ca.serial w.server.serial "mcptp-server" server_auth
          (C.public b.server_priv) b.ca_der b.server_der good.server refl from until in
      let vc =
        verify_of_Issued w.ref_time now w.ca.serial w.client.serial "mcptp-client" client_auth
          (C.public b.client_priv) b.ca_der b.client_der good.client refl from until in
      let ls =
        load_of_Issued w.ref_time now w.ca.serial w.server.serial "mcptp-server" server_auth
          b.server_priv files.server_bytes b.ca_der b.server_der good.server files.server_marshals
          vs in
      let lc =
        load_of_Issued w.ref_time now w.ca.serial w.client.serial "mcptp-client" client_auth
          b.client_priv files.client_bytes b.ca_der b.client_der good.client files.client_marshals
          vc in
      (
        server_config C b.server_der (b.ca_der ∷ []),
        client_config C b.client_der (b.ca_der ∷ []),
        simp (files.ca_crt, files.server_crt, files.server_key, ls),
        simp (files.ca_crt, files.client_crt, files.client_key, lc),
        vs,
        vc,
      )
