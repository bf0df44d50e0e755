-- ===== src/Mtls/Privacy.antt =====
-- Which files the command touches, and the modes of those that hold keys, whether or not it fails.
use package.text.Mathlib.TextEquality.{eq_iff}
use mcptp.Base.{
  arith, ◌≡◌, ◌⊎◌, refl, sym, subst, ◌∙◌, true, false, Option, none, some, List, [], ◌∷◌, String,
  ◌<>◌, Result, failed, ok, str_eq, Bool-cases, inl, inr, All,
}
use mcptp.Mtls.Certificates.{Crypto, Content}
use mcptp.Mtls.Command.{
  Mode, mode_644, mode_600, Disk, lookup, store, File, Answer, open_failed, encode_failed, written,
  World, Bundle, write_block, write_certificate, write_marshalled, write_private_key, then_write,
  write_all, write_made, write_generated, generate, action, ActionError, WriteError,
}

-- The files that the command writes.
abbrev pub files : List String
files = "ca.crt" ∷ "server.crt" ∷ "server.key" ∷ "client.crt" ∷ "client.key" ∷ []

module _ (C : Crypto) where
  -- What holds of the directory and is kept by writing the file does so whatever the answer is.
  abbrev Keeps : (Disk C → Type 0) → String → Mode → Type 0
  Keeps P name mode = (c : Content C.Der C.Pkcs8) (d : Disk C) → P d → P (store C name mode c d)

  write_block-keeps :
      (P : Disk C → Type 0) (name : String) (mode : Mode) (c : Content C.Der C.Pkcs8) (a : Answer)
      (d : Disk C)
      → Keeps P name mode
      → P d
      → P (write_block C name mode c a d).0
  unfolding write_block
  write_block-keeps P name mode c (open_failed e) d k p = p
  write_block-keeps P name mode c (encode_failed bytes e) d k p = k _ d p
  write_block-keeps P name mode c written d k p = k _ d p

  write_marshalled-keeps :
      (P : Disk C → Type 0) (name : String) (r : Result String C.Pkcs8) (a : Answer) (d : Disk C)
      → Keeps P (name <> ".key") mode_600
      → P d
      → P (write_marshalled C name r a d).0
  unfolding write_marshalled
  write_marshalled-keeps P name (failed e) a d k p = p
  write_marshalled-keeps P name (ok bytes) a d k p = write_block-keeps P _ _ _ a d k p

  then_write-keeps :
      (P : Disk C → Type 0) (name : String) (r : Disk C × Result WriteError Unit)
      (rest : Disk C → Disk C × Option ActionError)
      → P r.0
      → ((d : Disk C) → P d → P (rest d).0)
      → P (then_write C name r rest).0
  unfolding then_write
  then_write-keeps P name (d, failed e) rest p k = p
  then_write-keeps P name (d, ok u) rest p k = k d p

  module _ (P : Disk C → Type 0) (ca : Keeps P "ca.crt" mode_644)
      (server : Keeps P "server.crt" mode_644) (server_key : Keeps P "server.key" mode_600)
      (client : Keeps P "client.crt" mode_644) (client_key : Keeps P "client.key" mode_600) where
    write_all-keeps : (w : World C) (b : Bundle C) (d : Disk C) → P d → P (write_all C w b d).0
    unfolding write_all write_certificate write_private_key
    write_all-keeps w b d p =
        then_write-keeps P _ _ _ (write_block-keeps P _ _ _ w.ca_crt d ca p) (λ d₁ p₁.
          then_write-keeps P _ _ _ (write_block-keeps P _ _ _ w.server_crt d₁ server p₁) (λ d₂ p₂.
            then_write-keeps P _ _ _
              (write_marshalled-keeps P "server" _ w.server_key d₂ server_key p₂)
              (λ d₃ p₃.
                then_write-keeps P _ _ _ (write_block-keeps P _ _ _ w.client_crt d₃ client p₃)
                  (λ d₄ p₄.
                    then_write-keeps P _ _ _
                      (write_marshalled-keeps P "client" _ w.client_key d₄ client_key p₄)
                      (λ d₅ p₅. p₅)))))

    write_made-keeps :
        (w : World C) (b : Bundle C) (o : Option String) (d : Disk C)
        → P d
        → P (write_made C w b o d).0
    unfolding write_made
    write_made-keeps w b none d p = write_all-keeps w b d p
    write_made-keeps w b (some e) d p = p

    write_generated-keeps :
        (w : World C) (r : Result ActionError (Bundle C)) (d : Disk C)
        → P d
        → P (write_generated C w r d).0
    unfolding write_generated
    write_generated-keeps w (failed e) d p = p
    write_generated-keeps w (ok b) d p = write_made-keeps w b w.directory d p

    action-keeps : (w : World C) (d : Disk C) → P d → P (action C w d).0
    unfolding action
    action-keeps w d p = write_generated-keeps w (generate C w) d p

  lookup-store-other :
      (name other : String) (mode : Mode) (c : Content C.Der C.Pkcs8) (d : Disk C)
      → str_eq name other ≡ false
      → lookup C name (store C other mode c d) ≡ lookup C name d
  unfolding lookup store
  lookup-store-other name other mode c [] h = ground arith
  lookup-store-other name other mode c ((n, f) ∷ d) h = elim (Bool-cases (str_eq other n)) [
    | inl p ↦
        let q = subst (λ x. str_eq name x ≡ false) ((eq_iff other n).0 p) h in ground (arith, p, q)
    | inr p ↦ ground (arith, p, lookup-store-other name other mode c d h)
  ]

  -- A file that is there has the mode 0600.
  abbrev Private : String → Disk C → Type 0
  Private name d = (f : File C) → lookup C name d ≡ some f → f.mode ≡ mode_600

  store-Private :
      (name : String) (c : Content C.Der C.Pkcs8) (d : Disk C)
      → str_eq name name ≡ true
      → Private name d
      → Private name (store C name mode_600 c d)
  unfolding lookup store
  store-Private name c [] h p f q = ground arith
  store-Private name c ((n, g) ∷ d) h p f q = elim (Bool-cases (str_eq name n)) [
    | inl e ↦ let r = p g (ground (arith, e)) in ground (arith, e, q, r)
    | inr e ↦
        let rest = λ (x : File C) (y : lookup C name d ≡ some x). p x (ground (arith, e, y)) in
        store-Private name c d h rest f (ground (arith, e, q))
  ]

  -- Whether or not the command fails, a file of the directory with a name other than those of its
  -- three certificates and two keys is as it was before.
  pub action-untouched :
      (w : World C) (d : Disk C) (name : String)
      → All (λ file. str_eq name file ≡ false) files
      → lookup C name (action C w d).0 ≡ lookup C name d
  action-untouched w d name (a, (b, (c, (e, (f, u))))) =
      action-keeps (λ x. lookup C name x ≡ lookup C name d)
        (λ k x p. lookup-store-other name _ _ k x a ∙ p)
        (λ k x p. lookup-store-other name _ _ k x b ∙ p)
        (λ k x p. lookup-store-other name _ _ k x c ∙ p)
        (λ k x p. lookup-store-other name _ _ k x e ∙ p)
        (λ k x p. lookup-store-other name _ _ k x f ∙ p) w d refl

  store_other-Private :
      (name other : String) (mode : Mode) (c : Content C.Der C.Pkcs8) (d : Disk C)
      → str_eq name other ≡ false
      → Private name d
      → Private name (store C other mode c d)
  store_other-Private name other mode c d h p f q =
      p f (sym (lookup-store-other name other mode c d h) ∙ q)

  action-server_key :
      (w : World C) (d : Disk C) → Private "server.key" d → Private "server.key" (action C w d).0
  action-server_key w d p =
      action-keeps (Private "server.key") (λ k x q. store_other-Private _ _ _ k x refl q)
        (λ k x q. store_other-Private _ _ _ k x refl q) (λ k x q. store-Private _ k x refl q)
        (λ k x q. store_other-Private _ _ _ k x refl q)
        (λ k x q. store_other-Private _ _ _ k x refl q) w d p

  action-client_key :
      (w : World C) (d : Disk C) → Private "client.key" d → Private "client.key" (action C w d).0
  action-client_key w d p =
      action-keeps (Private "client.key") (λ k x q. store_other-Private _ _ _ k x refl q)
        (λ k x q. store_other-Private _ _ _ k x refl q)
        (λ k x q. store_other-Private _ _ _ k x refl q)
        (λ k x q. store_other-Private _ _ _ k x refl q) (λ k x q. store-Private _ k x refl q) w d p

  absent-Private : (name : String) (d : Disk C) → lookup C name d ≡ none → Private name d
  absent-Private name d h f p = cc

  -- Whether or not the command fails, a server.key or client.key that is not there before it and is
  -- there after it has the mode 0600.
  pub action-Private :
      (w : World C) (d : Disk C) (name : String) (f : File C)
      → (name ≡ "server.key") ⊎ (name ≡ "client.key")
      → lookup C name d ≡ none
      → lookup C name (action C w d).0 ≡ some f
      → f.mode ≡ mode_600
  action-Private w d name f (inl p) h q =
      subst (λ n. Private n (action C w d).0) (sym p)
        (action-server_key w d
          (absent-Private "server.key" d (subst (λ n. lookup C n d ≡ none) p h)))
        f q
  action-Private w d name f (inr p) h q =
      subst (λ n. Private n (action C w d).0) (sym p)
        (action-client_key w d
          (absent-Private "client.key" d (subst (λ n. lookup C n d ≡ none) p h)))
        f q
