-- ===== src/Client/Flags/Accepted.antt =====
-- What the client runs with, when its command line is accepted.
use mcptp.Base.{◌≡◌, ap, subst, String, Result, ok, wrap, wrap-ok, >>=-ok}
use mcptp.Client.Flags.{
  Line, cert_flag, key_flag, ca_flag, read_flags, bad_flag, refused, configure,
}
use mcptp.Client.Settings.{Net, Settings, before}
use mcptp.Client.Settings.Accepted as SettingsAccepted
use mcptp.Client.Settings.Accepted.{before-Accepted_client}
use mcptp.Flags.{Reader, IsReader}
use mcptp.Flags.Values.{Given, plain_flag-Given}
use mcptp.Settings.{CertFlags}

-- The three paths are those that the command line gives, each once, or empty where it gives none.
pub record Named (line : Line) (f : CertFlags) : Type 0 where
  pub cert : Given line.certs "" f.cert
  pub key : Given line.keys "" f.key
  pub ca : Given line.cas "" f.ca

unwrap : {X A : Type 0} (x y : A) → ◌≡◌ {A = Result X A} (ok x) (ok y) → x ≡ y
unwrap x y h = cc

read_flags-Named :
    (R : Reader) (line : Line) (f : CertFlags)
    → IsReader R
    → read_flags R line ≡ ok f
    → Named line f
unfolding read_flags
read_flags-Named R line f i h =
    let (cert, e₀, h₁) = >>=-ok (R.read String ⊥ cert_flag line.certs) _ _ h in
    let (key, e₁, h₂) = >>=-ok (R.read String ⊥ key_flag line.keys) _ _ h₁ in
    let (ca, e₂, h₃) = >>=-ok (R.read String ⊥ ca_flag line.cas) _ _ h₂ in
    subst (Named line) (unwrap _ _ h₃) (record {
      cert = plain_flag-Given (i.comes String ⊥ cert_flag line.certs cert e₀);
      key = plain_flag-Given (i.comes String ⊥ key_flag line.keys key e₁);
      ca = plain_flag-Given (i.comes String ⊥ ca_flag line.cas ca e₂);
    })

-- When the client accepts its command line, each path of a certificate is the one that the line
-- gives, or empty where it gives none; the target is its one argument; there is a TLS configuration,
-- the one built from the three paths, if the scheme is wss, and no path is set and none is there if
-- it is ws; no other scheme is let through; and compression is off exactly for a host that is taken
-- as a loopback address. It holds for any library that keeps what is documented of its flags.
pub configure-Accepted :
    {Conf : Type 0} (R : Reader) (N : Net) (build : String → String → String → Result String Conf)
    (line : Line) (f : CertFlags) (s : Settings Conf)
    → IsReader R
    → configure R N build line ≡ ok (f, s)
    → Named line f × SettingsAccepted.Accepted N build line.arguments f s
unfolding configure
configure-Accepted R N build line f s i h =
    let (f', p, h₁) = >>=-ok (wrap bad_flag (read_flags R line)) _ _ h in
    let (s', q, h₂) = >>=-ok (wrap refused (before N build line.arguments f')) _ _ h₁ in
    let same = unwrap (f', s') (f, s) h₂ in
    let e : f' ≡ f = ap (λ x. x.0) same in
    let g : s' ≡ s = ap (λ x. x.1) same in
    (
      subst (Named line) e (read_flags-Named R line f' i (wrap-ok bad_flag _ _ p)),
      subst (λ x. SettingsAccepted.Accepted N build line.arguments f x) g
          (subst (λ x. SettingsAccepted.Accepted N build line.arguments x s') e
            (before-Accepted_client N build line.arguments f' s' (wrap-ok refused _ _ q))),
    )
