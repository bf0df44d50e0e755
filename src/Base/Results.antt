-- ===== src/Base/Results.antt =====
-- Go's pair of a value and an error, of which one is set.
use mathlib.Core.Path.{◌≡◌, refl}

pub data Result (E A : Type 0) : Type 0 where
  failed : E → Result E A
  ok : A → Result E A

module _ {E A B : Type 0} where
  infixl 5 ◌>>=◌
  abbrev pub ◌>>=◌ : Result E A → (A → Result E B) → Result E B
  failed e >>= f = failed e
  ok a >>= f = f a

  -- Each step of a chain that succeeds has succeeded.
  pub >>=-ok :
      (r : Result E A) (f : A → Result E B) (b : B)
      → (r >>= f) ≡ ok b
      → (a : A) × (r ≡ ok a) × (f a ≡ ok b)
  >>=-ok (failed e) f b h = cc
  >>=-ok (ok a) f b h = (a, refl, h)

module _ {E F A : Type 0} where
  -- The error of a call, wrapped.
  abbrev pub wrap : (E → F) → Result E A → Result F A
  wrap f (failed e) = failed (f e)
  wrap f (ok a) = ok a

  pub wrap-ok : (f : E → F) (r : Result E A) (a : A) → wrap f r ≡ ok a → r ≡ ok a
  wrap-ok f (failed e) a h = cc
  wrap-ok f (ok b) a h = cc
