-- ===== src/Server/Settings/Accepted.antt =====
-- What a command line that the server accepts is.
use mcptp.Base.{
  ◌≡◌, subst, Option, none, some, List, [], ◌∷◌, String, Result, ok, wrap, wrap-ok, >>=-ok,
}
use mcptp.Server.Settings.{Settings, SettingsError, the_command, before, found, tls_error}
use mcptp.Settings.{CertFlags, tls_conf}
use mcptp.Settings.Choice.{Choice, tls_conf-Choice}

the_command-ok :
    (args : List String) (name : String) (rest : List String)
    → the_command args ≡ ok (name, rest)
    → args ≡ name ∷ rest
unfolding the_command
the_command-ok [] name rest h = cc
the_command-ok (a ∷ args) name rest h = cc

found-ok : (r : String × Option String) (path : String) → found r ≡ ok path → r ≡ (path, none)
unfolding found
found-ok (p, none) path h = cc
found-ok (p, some e) path h = cc

module _ {Conf : Type 0} where
  unwrap :
      (x y : Settings Conf) → ◌≡◌ {A = Result SettingsError (Settings Conf)} (ok x) (ok y) → x ≡ y
  unwrap x y h = cc

  -- The command is there and is found, its arguments are passed on, and TLS is used exactly if the
  -- three flags say so.
  abbrev pub Accepted :
      (String → String × Option String)
      → (String → String → String → Result String Conf)
      → List String
      → CertFlags
      → Settings Conf
      → Type 0
  Accepted look_path build args flags s =
      ((name : String) × (args ≡ name ∷ s.arguments) × (look_path name ≡ (s.program, none)))
      × Choice build flags s.tls

  -- Settings that `Before` of the server makes are those that the command line asks for: the program
  -- is the one that its first argument is found at, the others are passed on, and there is a TLS
  -- configuration, the one built from the flags, if all three are set, and none if none is set.
  pub before-Accepted :
      (look_path : String → String × Option String)
      (build : String → String → String → Result String Conf) (args : List String)
      (flags : CertFlags) (s : Settings Conf)
      → before look_path build args flags ≡ ok s
      → Accepted look_path build args flags s
  unfolding before
  before-Accepted look_path build args flags s h =
      let ((name, rest), p, h₁) = >>=-ok (the_command args) _ _ h in
      let (program, q, h₂) = >>=-ok (found (look_path name)) _ _ h₁ in
      let (conf, r, h₃) = >>=-ok (wrap tls_error (tls_conf build flags)) _ _ h₂ in
      subst (Accepted look_path build args flags) (unwrap _ _ h₃) (
        (name, the_command-ok args name rest p, found-ok _ _ q),
        tls_conf-Choice build flags conf (wrap-ok tls_error _ _ r),
      )
