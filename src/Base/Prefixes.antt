-- ===== src/Base/Prefixes.antt =====
-- The beginnings of a list.
use mathlib.Core.Path.{◌≡◌, refl, sym, ap, ◌∙◌}
use mathlib.Core.List.{List, [], ◌∷◌, ◌++◌, append_assoc, append-nil, IsPrefix}
use Prim.Native.Nat.{ℕ, zero, suc}
use mcptp.Base.Lists.{take, concat}

module _ {ℓ} {A : Type ℓ} where
  pub IsPrefix-refl : (xs : List A) → IsPrefix xs xs
  IsPrefix-refl xs = ([], append-nil xs)

  pub IsPrefix-trans : (xs ys zs : List A) → IsPrefix xs ys → IsPrefix ys zs → IsPrefix xs zs
  IsPrefix-trans xs ys zs (s, e) (t, f) =
      (s ++ t, sym (append_assoc xs s t) ∙ ap (λ l. l ++ t) e ∙ f)

  pub append-IsPrefix : (zs xs ys : List A) → IsPrefix xs ys → IsPrefix (zs ++ xs) (zs ++ ys)
  append-IsPrefix zs xs ys (s, e) = (s, append_assoc zs xs s ∙ ap (λ l. zs ++ l) e)

  -- What is a beginning of the start of a list is one of the list.
  pub IsPrefix-append : (xs ys zs : List A) → IsPrefix xs ys → IsPrefix xs (ys ++ zs)
  IsPrefix-append xs ys zs (s, e) = (s ++ zs, sym (append_assoc xs s zs) ∙ ap (λ l. l ++ zs) e)

  pub take-IsPrefix : (n : ℕ) (xs : List A) → IsPrefix (take n xs) xs
  take-IsPrefix zero xs = (xs, refl)
  take-IsPrefix (suc n) [] = ([], refl)
  take-IsPrefix (suc n) (x ∷ xs) = let (s, e) = take-IsPrefix n xs in (s, ap (λ l. x ∷ l) e)

  pub concat-IsPrefix :
      (xss yss : List (List A)) → IsPrefix xss yss → IsPrefix (concat xss) (concat yss)
  concat-IsPrefix [] yss p = (concat yss, refl)
  concat-IsPrefix (xs ∷ xss) [] (s, e) = cc
  concat-IsPrefix (xs ∷ xss) (ys ∷ yss) (s, e) =
      let same : xs ≡ ys = cc in
      let (t, f) = concat-IsPrefix xss yss (s, cc) in
      (t, append_assoc xs (concat xss) t ∙ ap (λ l. xs ++ l) f ∙ ap (λ l. l ++ concat yss) same)
