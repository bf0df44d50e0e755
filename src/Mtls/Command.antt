-- ===== src/Mtls/Command.antt =====
-- mtls/command.go: the command that makes the certificates and writes them to the output directory.
use mcptp.Base.{
  ℕ, Option, none, some, List, [], ◌∷◌, String, ◌<>◌, Bytes, Result, failed, ok, ◌>>=◌, wrap,
  str_eq, if◌then◌else◌,
}
use mcptp.Mtls.Certificates.{
  Crypto, Content, certificate, private_key, other_bytes, Draws, GenerateError, generate_ca,
  generate_server, generate_client,
}

-- Modes, in octal in the source.
pub data Mode : Type 0 where
  mode_644 mode_600 : Mode
  other_mode : ℕ → Mode

-- How opening a file and writing its block go: `encode_failed` leaves some bytes in the file.
pub data Answer : Type 0 where
  open_failed : String → Answer
  encode_failed : Bytes → String → Answer
  written : Answer

pub data WriteError : Type 0 where
  not_marshalled : String → WriteError  -- "failed to marshal private key: …"
  not_opened : String → WriteError  -- "failed to create output file at …"
  not_encoded : String → WriteError  -- "failed to encode … in …"

module _ (C : Crypto) where
  pub record File : Type 0 where
    pub mode : Mode
    pub content : Content C.Der C.Pkcs8

  -- The output directory.
  abbrev pub Disk : Type 0
  Disk = List (String × File)

  unfoldable pub lookup : String → Disk → Option File
  lookup name [] = none
  lookup name ((n, f) ∷ d) = if str_eq name n then some f else lookup name d

  -- Reading a file back.
  unfoldable pub read : String → Disk → Result String (Content C.Der C.Pkcs8)
  read name [] = failed "no such file"
  read name ((n, f) ∷ d) = if str_eq name n then ok f.content else read name d

  -- `os.OpenFile` with O_CREATE and O_TRUNC, and the content then written: a file that exists keeps
  -- its mode.
  unfoldable pub store : String → Mode → Content C.Der C.Pkcs8 → Disk → Disk
  store name mode content [] = (name, record { mode = mode; content = content }) ∷ []
  store name mode content ((n, f) ∷ d) =
      let rest = store name mode content d in
      if str_eq name n then (n, record f { content = content }) ∷ d else (n, f) ∷ rest

  -- The end of `writeCertificate` and `writePrivateKey`: the file is opened and the block encoded.
  unfoldable pub write_block :
      String → Mode → Content C.Der C.Pkcs8 → Answer → Disk → Disk × Result WriteError Unit
  write_block name mode block (open_failed e) d = (d, failed (not_opened e))
  write_block name mode block (encode_failed bytes e) d =
      (store name mode (other_bytes bytes) d, failed (not_encoded e))
  write_block name mode block written d = (store name mode block d, ok tt)

  -- `writeCertificate`
  unfoldable pub write_certificate : String → C.Der → Answer → Disk → Disk × Result WriteError Unit
  write_certificate name der answer d =
      write_block (name <> ".crt") mode_644 (certificate der) answer d

  -- `writePrivateKey`, from what marshalling the key gives.
  unfoldable pub write_marshalled :
      String → Result String C.Pkcs8 → Answer → Disk → Disk × Result WriteError Unit
  write_marshalled name (failed e) answer d = (d, failed (not_marshalled e))
  write_marshalled name (ok bytes) answer d =
      write_block (name <> ".key") mode_600 (private_key bytes) answer d

  unfoldable pub write_private_key :
      String → C.PrivateKey → Answer → Disk → Disk × Result WriteError Unit
  write_private_key name priv answer d = write_marshalled name (C.marshal_key priv) answer d

-- What the command fails with: the first error, wrapped.
pub data ActionError : Type 0 where
  in_ca in_server in_client : GenerateError → ActionError
  no_directory : String → ActionError
  in_file : String → WriteError → ActionError

-- The time, what the three generations draw, the error of `os.MkdirAll`, and how each file is
-- written.
pub record World (C : Crypto) : Type 0 where
  pub ref_time : ℕ
  pub ca : Draws C
  pub server : Draws C
  pub client : Draws C
  pub directory : Option String
  pub ca_crt : Answer
  pub server_crt : Answer
  pub server_key : Answer
  pub client_crt : Answer
  pub client_key : Answer

-- What the three generations make.
pub record Bundle (C : Crypto) : Type 0 where
  pub ca_der : C.Der
  pub server_der : C.Der
  pub server_priv : C.PrivateKey
  pub client_der : C.Der
  pub client_priv : C.PrivateKey

module _ (C : Crypto) where
  -- The part of `Action` before anything is written.
  unfoldable pub generate : World C → Result ActionError (Bundle C)
  generate w = do
    (ca_der, ca_priv) ← wrap in_ca (generate_ca C w.ref_time w.ca)
    (server_der, server_priv) ←
        wrap in_server (generate_server C w.ref_time ca_der ca_priv w.server)
    (client_der, client_priv) ←
        wrap in_client (generate_client C w.ref_time ca_der ca_priv w.client)
    ok (record {
      ca_der = ca_der;
      server_der = server_der;
      server_priv = server_priv;
      client_der = client_der;
      client_priv = client_priv;
    })

  -- A write, and the rest of the action if it does not fail.
  unfoldable pub then_write :
      String
      → Disk C × Result WriteError Unit
      → (Disk C → Disk C × Option ActionError)
      → Disk C × Option ActionError
  then_write name (d, failed e) rest = (d, some (in_file name e))
  then_write name (d, ok _) rest = rest d

  -- The part that writes: the certificate of the authority, but not its key, and the others.
  unfoldable pub write_all : World C → Bundle C → Disk C → Disk C × Option ActionError
  write_all w b d₀ =
      then_write "CA certificate" (write_certificate C "ca" b.ca_der w.ca_crt d₀) (λ d₁.
        then_write "server certificate" (write_certificate C "server" b.server_der w.server_crt d₁)
          (λ d₂.
            then_write "server private key"
              (write_private_key C "server" b.server_priv w.server_key d₂)
              (λ d₃.
                then_write "client certificate"
                  (write_certificate C "client" b.client_der w.client_crt d₃)
                  (λ d₄.
                    then_write "client private key"
                      (write_private_key C "client" b.client_priv w.client_key d₄)
                      (λ d₅. (d₅, none))))))

  unfoldable pub write_made :
      World C → Bundle C → Option String → Disk C → Disk C × Option ActionError
  write_made w b (some e) d = (d, some (no_directory e))
  write_made w b none d = write_all w b d

  unfoldable pub write_generated :
      World C → Result ActionError (Bundle C) → Disk C → Disk C × Option ActionError
  write_generated w (failed e) d = (d, some e)
  write_generated w (ok b) d = write_made w b w.directory d

  -- `Action`
  unfoldable pub action : World C → Disk C → Disk C × Option ActionError
  action w d = write_generated w (generate w) d
