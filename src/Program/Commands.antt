-- ===== src/Program/Commands.antt =====
-- main.go: the commands of the program with their names, and the names of their flags.
pub mod Names
use mcptp.Base.{
  ◌≡◌, ◌≢◌, ◌↔◌, refl, Bool, true, false, ◌&&◌, ◌||◌, not, List, [], ◌∷◌, ◌++◌, All, String, str_eq,
  concat, map, arith,
}
use mcptp.Client.Flags as ClientFlags
use mcptp.Flags.{Flag}
use mcptp.Mtls.Flags as MtlsFlags
use mcptp.Server.Flags as ServerFlags

abbrev names_of : {A E : Type 0} → Flag A E → List String
names_of flag = flag.name ∷ flag.aliases

-- `cli.Command`, less its texts and functions; `flags` are the names and aliases of each flag.
pub record Command : Type 0 where
  pub name : String
  pub aliases : List String
  pub flags : List (List String)

-- `client.Command`, `server.Command` and `mtls.Command`
unfoldable pub client : Command
client = record {
  name = "client";
  aliases = "c" ∷ [];
  flags =
      names_of ClientFlags.cert_flag
      ∷ names_of ClientFlags.key_flag
      ∷ names_of ClientFlags.ca_flag
      ∷ [];
}

unfoldable pub server : (String → String) → Command
server upper = record {
  name = "server";
  aliases = "s" ∷ [];
  flags =
      names_of (ServerFlags.log_level_flag upper)
      ∷ names_of ServerFlags.bind_flag
      ∷ names_of ServerFlags.port_flag
      ∷ names_of ServerFlags.max_connections_flag
      ∷ names_of ServerFlags.cert_flag
      ∷ names_of ServerFlags.key_flag
      ∷ names_of ServerFlags.ca_flag
      ∷ [];
}

unfoldable pub mtls : Command
mtls = record { name = "mTLS"; aliases = "t" ∷ []; flags = names_of MtlsFlags.output_flag ∷ [] }

-- The commands under `mcptp`.
unfoldable pub commands : (String → String) → List Command
unfolding client server mtls
commands upper = client ∷ server upper ∷ mtls ∷ []
