-- ===== src/Mtls/Files.antt =====
-- What the command leaves in the output directory.
use package.text.Mathlib.TextEquality.{eq_iff}
use mcptp.Base.{
  arith, ◌≡◌, refl, ap, subst, ◌∙◌, true, false, Option, none, [], ◌∷◌, String, Result, failed, ok,
  str_eq, ◌<>◌, Bool-cases, inl, inr,
}
use mcptp.Mtls.Certificates.{Crypto, Content, certificate, private_key}
use mcptp.Mtls.Command.{
  Mode, mode_644, mode_600, written, open_failed, encode_failed, Disk, read, store, Answer, World,
  Bundle, write_block, write_certificate, write_marshalled, write_private_key, then_write,
  write_all, ActionError, WriteError,
}

module _ (C : Crypto) where
  read-store :
      (name : String) (mode : Mode) (c : Content C.Der C.Pkcs8) (d : Disk C)
      → str_eq name name ≡ true
      → read C name (store C name mode c d) ≡ ok c
  unfolding read store
  read-store name mode c [] h = ground arith
  read-store name mode c ((n, f) ∷ d) h = ground (arith, read-store name mode c d h)

  read-store-other :
      (name other : String) (mode : Mode) (c : Content C.Der C.Pkcs8) (d : Disk C)
      → str_eq name other ≡ false
      → read C name (store C other mode c d) ≡ read C name d
  unfolding read store
  read-store-other name other mode c [] h = ground arith
  read-store-other name other mode c ((n, f) ∷ d) h = elim (Bool-cases (str_eq other n)) [
    | inl p ↦
        let q = subst (λ x. str_eq name x ≡ false) ((eq_iff other n).0 p) h in ground (arith, p, q)
    | inr p ↦ ground (arith, p, read-store-other name other mode c d h)
  ]

  then_write-ok :
      (name : String) (r : Disk C × Result WriteError Unit)
      (rest : Disk C → Disk C × Option ActionError) (d' : Disk C)
      → then_write C name r rest ≡ (d', none)
      → (d : Disk C) × (r ≡ (d, ok tt)) × (rest d ≡ (d', none))
  unfolding then_write
  then_write-ok name (d, failed e) rest d' h = cc
  then_write-ok name (d, ok tt) rest d' h = (d, refl, h)

  write_block-ok :
      (name : String) (mode : Mode) (block : Content C.Der C.Pkcs8) (a : Answer) (d d' : Disk C)
      → write_block C name mode block a d ≡ (d', ok tt)
      → d' ≡ store C name mode block d
  unfolding write_block
  write_block-ok name mode block (open_failed e) d d' h = cc
  write_block-ok name mode block (encode_failed bytes e) d d' h = cc
  write_block-ok name mode block written d d' h = cc

  write_marshalled-ok :
      (name : String) (r : Result String C.Pkcs8) (a : Answer) (d d' : Disk C)
      → write_marshalled C name r a d ≡ (d', ok tt)
      → (bytes : C.Pkcs8) × (r ≡ ok bytes)
        × (d' ≡ store C (name <> ".key") mode_600 (private_key bytes) d)
  unfolding write_marshalled
  write_marshalled-ok name (failed e) a d d' h = cc
  write_marshalled-ok name (ok bytes) a d d' h =
      (bytes, refl, write_block-ok (name <> ".key") mode_600 (private_key bytes) a d d' h)

  -- The five files as they can be read back, and the two keys as they are marshalled.
  pub record Stored (b : Bundle C) (d : Disk C) : Type 0 where
    pub server_bytes : C.Pkcs8
    pub client_bytes : C.Pkcs8
    pub server_marshals : C.marshal_key b.server_priv ≡ ok server_bytes
    pub client_marshals : C.marshal_key b.client_priv ≡ ok client_bytes
    pub ca_crt : read C "ca.crt" d ≡ ok (certificate b.ca_der)
    pub server_crt : read C "server.crt" d ≡ ok (certificate b.server_der)
    pub server_key : read C "server.key" d ≡ ok (private_key server_bytes)
    pub client_crt : read C "client.crt" d ≡ ok (certificate b.client_der)
    pub client_key : read C "client.key" d ≡ ok (private_key client_bytes)

  stored : Bundle C → C.Pkcs8 → C.Pkcs8 → Disk C → Disk C
  stored b s c d = store C "client.key" mode_600 (private_key c) (
      store C "client.crt" mode_644 (certificate b.client_der) (
        store C "server.key" mode_600 (private_key s) (
          store C "server.crt" mode_644 (certificate b.server_der)
            (store C "ca.crt" mode_644 (certificate b.ca_der) d))))

  stored-Stored :
      (b : Bundle C) (s c : C.Pkcs8) (d d' : Disk C)
      → C.marshal_key b.server_priv ≡ ok s
      → C.marshal_key b.client_priv ≡ ok c
      → d' ≡ stored b s c d
      → Stored b d'
  unfolding stored
  stored-Stored b s c d d' ms mc e = record {
    server_bytes = s;
    client_bytes = c;
    server_marshals = ms;
    client_marshals = mc;
    ca_crt = ap (read C "ca.crt") e ∙ simp (read-store, read-store-other);
    server_crt = ap (read C "server.crt") e ∙ simp (read-store, read-store-other);
    server_key = ap (read C "server.key") e ∙ simp (read-store, read-store-other);
    client_crt = ap (read C "client.crt") e ∙ simp (read-store, read-store-other);
    client_key = ap (read C "client.key") e ∙ simp (read-store);
  }

  -- The writes in order: what each leaves, and what is left in the end.
  chained :
      (b : Bundle C) (s c : C.Pkcs8) (d d₁ d₂ d₃ d₄ d₅ d' : Disk C)
      → d₁ ≡ store C "ca.crt" mode_644 (certificate b.ca_der) d
      → d₂ ≡ store C "server.crt" mode_644 (certificate b.server_der) d₁
      → d₃ ≡ store C "server.key" mode_600 (private_key s) d₂
      → d₄ ≡ store C "client.crt" mode_644 (certificate b.client_der) d₃
      → d₅ ≡ store C "client.key" mode_600 (private_key c) d₄
      → ◌≡◌ {A = Disk C × Option ActionError} (d₅, none) (d', none)
      → d' ≡ stored b s c d
  unfolding stored
  chained b s c d d₁ d₂ d₃ d₄ d₅ d' e₁ e₂ e₃ e₄ e₅ h = cc

  -- The part of the action that writes leaves all five files, if it does not fail.
  pub write_all-Stored :
      (w : World C) (b : Bundle C) (d d' : Disk C) → write_all C w b d ≡ (d', none) → Stored b d'
  unfolding write_all write_certificate write_private_key
  write_all-Stored w b d d' h =
      let (d₁, p₁, h₁) = then_write-ok _ _ _ d' h in
      let (d₂, p₂, h₂) = then_write-ok _ _ _ d' h₁ in
      let (d₃, p₃, h₃) = then_write-ok _ _ _ d' h₂ in
      let (d₄, p₄, h₄) = then_write-ok _ _ _ d' h₃ in
      let (d₅, p₅, h₅) = then_write-ok _ _ _ d' h₄ in
      let (s, ms, e₃) = write_marshalled-ok _ _ _ d₂ d₃ p₃ in
      let (c, mc, e₅) = write_marshalled-ok _ _ _ d₄ d₅ p₅ in
      stored-Stored b s c d d' ms mc (
        chained b s c d d₁ d₂ d₃ d₄ d₅ d' (write_block-ok _ _ _ _ d d₁ p₁)
          (write_block-ok _ _ _ _ d₁ d₂ p₂) e₃ (write_block-ok _ _ _ _ d₃ d₄ p₄) e₅ h₅)
