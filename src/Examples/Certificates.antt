-- ===== src/Examples/Certificates.antt =====
-- The certificates of a run of the command with the toy cryptography.
use mcptp.Base.{arith, ◌≡◌, ◌≢◌, refl, inl, none, [], ◌∷◌, ℕ, ok}
use mcptp.Examples.Notary.{Signed, notary, notary-IsCrypto}
use mcptp.Mtls.Bundle.{action-serves}
use mcptp.Mtls.Certificates.{
  Draws, generate_ca, generate_leaf, ca_template, leaf_template, generate_server, generate_client,
  new_serial, server_auth, client_auth, certificate, private_key,
}
use mcptp.Mtls.Command.{
  Disk, File, World, written, open_failed, action, lookup, read, mode_600, mode_644, generate,
  write_made, write_generated, write_all, write_certificate, write_private_key, write_marshalled,
  write_block, store, then_write,
}
use mcptp.Mtls.Configuration.{
  server_tls_config, client_tls_config, server_config, client_config, load, load_pair, to_pool,
  to_verified, ServerConfig, ClientConfig,
}
use mcptp.Mtls.Privacy.{action-untouched, action-Private}
use mcptp.Mtls.Roles.{roles_apart}

abbrev drawn : ℕ → Draws notary
drawn k = record { key = ok k; serial = k ∷ []; signature = [] }

abbrev ca_cert : Signed
ca_cert = record { template = ca_template 5 (7 ∷ []); holder = 7; signer = 7 }

abbrev server_cert : Signed
server_cert = record {
  template = leaf_template "mcptp-server" server_auth 5 (8 ∷ []);
  holder = 8;
  signer = 7;
}

abbrev client_cert : Signed
client_cert = record {
  template = leaf_template "mcptp-client" client_auth 5 (9 ∷ []);
  holder = 9;
  signer = 7;
}

abbrev configured : ClientConfig notary
configured = client_config notary client_cert (ca_cert ∷ [])

roles_apart_example :
    (client_tls_config notary 5
        (ok (certificate ca_cert))
        (ok (certificate server_cert))
        (ok (private_key 8))
      ≢ ok configured)
    × (server_tls_config notary 6
          (ok (certificate ca_cert))
          (ok (certificate client_cert))
          (ok (private_key 9))
        ≢ ok (server_config notary client_cert (ca_cert ∷ [])))
    × (configured.verify_connection 6 client_cert ≢ none)
unfolding generate_leaf generate_server generate_client ca_template leaf_template new_serial
    client_tls_config load load_pair to_pool to_verified
roles_apart_example =
    roles_apart notary notary-IsCrypto 5 ca_cert 7 (drawn 8) (drawn 9) server_cert client_cert 8 9 5
      6 5 6 (ok (certificate ca_cert)) (ok (private_key 8)) (ok (certificate ca_cert))
      (ok (private_key 9)) (ok (certificate ca_cert)) (ok (certificate client_cert))
      (ok (private_key 9)) configured configured (server_config notary client_cert (ca_cert ∷ []))
      refl refl refl

-- All goes well; and the certificate of the client cannot be written.
abbrev world : World notary
world = record {
  ref_time = 5;
  ca = drawn 7;
  server = drawn 8;
  client = drawn 9;
  directory = none;
  ca_crt = written;
  server_crt = written;
  server_key = written;
  client_crt = written;
  client_key = written;
}

abbrev full : World notary
full = record world { client_crt = open_failed "no space left on device" }

-- A directory that holds another file and an old certificate.
abbrev disk : Disk notary
disk =
    ("notes", record { mode = mode_644; content = private_key 3 })
    ∷ ("ca.crt", record { mode = mode_644; content = private_key 4 })
    ∷ []

abbrev written_disk : Disk notary
written_disk = (action notary world disk).0

action-serves_example :
    (s : ServerConfig notary) × (c : ClientConfig notary) × (server_tls_config notary 6
        (read notary "ca.crt" written_disk)
        (read notary "server.crt" written_disk)
        (read notary "server.key" written_disk)
      ≡ ok s)
    × (client_tls_config notary 6
          (read notary "ca.crt" written_disk)
          (read notary "client.crt" written_disk)
          (read notary "client.key" written_disk)
        ≡ ok c)
    × (c.verify_connection 6 s.certificate ≡ none)
    × (notary.verify 6 s.client_cas (client_auth ∷ []) c.certificate ≡ none)
unfolding action generate generate_ca generate_leaf generate_server generate_client ca_template
    leaf_template new_serial write_made write_generated write_all write_certificate
    write_private_key write_marshalled write_block store then_write
action-serves_example =
    action-serves notary notary-IsCrypto world disk written_disk 6 refl (omega arith) (omega arith)

action-untouched_example :
    lookup notary "notes" (action notary full disk).0 ≡ lookup notary "notes" disk
action-untouched_example =
    action-untouched notary full disk "notes" (refl, (refl, (refl, (refl, (refl, tt)))))

abbrev key_file : File notary
key_file = record { mode = mode_600; content = private_key 8 }

action-Private_example : key_file.mode ≡ mode_600
unfolding action generate generate_ca generate_leaf generate_server generate_client ca_template
    leaf_template new_serial write_made write_generated write_all write_certificate
    write_private_key write_marshalled write_block store then_write lookup
action-Private_example = action-Private notary full disk "server.key" key_file (inl refl) refl refl
