-- ===== src/Base/Names.antt =====
-- Lists of names in which no name stands twice.
use text.Mathlib.TextEquality.{eq_iff}
use Prim.Native.String.{String}
use mathlib.Core.Path.{◌≡◌, sym, subst, ◌∙◌}
use mathlib.Core.Bool.{Bool, true, not, ◌&&◌}
use mathlib.Core.List.{List, [], ◌∷◌, ◌++◌, Memᴰ}
use native.Mathlib.Omega.{arith}
use mcptp.Base.Lists.{concat}
use mcptp.Base.Tests.{str_eq}

abbrev pub absent : String → List String → Bool
absent n [] = true
absent n (x ∷ xs) = not (str_eq n x) && absent n xs

abbrev pub distinct : List String → Bool
distinct [] = true
distinct (x ∷ xs) = absent x xs && distinct xs

absent-mem : (n : String) (xs : List String) → absent n xs ≡ true → Memᴰ n xs → ⊥
absent-mem n [] h m = elim m [ ]
absent-mem n (x ∷ xs) h (Memᴰ.head e) = let s = (eq_iff n x).1 e in ground (arith, s, h)
absent-mem n (x ∷ xs) h (Memᴰ.tail m) = absent-mem n xs (ground (arith, h)) m

mem-append : {n : String} (xs : List String) {ys : List String} → Memᴰ n ys → Memᴰ n (xs ++ ys)
mem-append [] m = m
mem-append (x ∷ xs) m = Memᴰ.tail (mem-append xs m)

append-mem : {n : String} {xs : List String} (ys : List String) → Memᴰ n xs → Memᴰ n (xs ++ ys)
append-mem ys (Memᴰ.head e) = Memᴰ.head e
append-mem ys (Memᴰ.tail m) = Memᴰ.tail (append-mem ys m)

concat-mem :
    {n : String} {f : List String} (fs : List (List String))
    → Memᴰ f fs
    → Memᴰ n f
    → Memᴰ n (concat fs)
concat-mem [] k m = elim k [ ]
concat-mem {n} (g ∷ fs) (Memᴰ.head e) m = append-mem (concat fs) (subst (Memᴰ n) e m)
concat-mem {n} (g ∷ fs) (Memᴰ.tail k) m = mem-append g (concat-mem fs k m)

distinct-append : (xs ys : List String) → distinct (xs ++ ys) ≡ true → distinct ys ≡ true
distinct-append [] ys h = h
distinct-append (x ∷ xs) ys h = distinct-append xs ys (ground (arith, h))

distinct_disjoint :
    {n : String} (xs ys : List String) → distinct (xs ++ ys) ≡ true → Memᴰ n xs → Memᴰ n ys → ⊥
distinct_disjoint [] ys h k m = elim k [ ]
distinct_disjoint {n} (x ∷ xs) ys h (Memᴰ.head e) m =
    absent-mem x (xs ++ ys) (ground (arith, h)) (mem-append xs (subst (λ k. Memᴰ k ys) e m))
distinct_disjoint (x ∷ xs) ys h (Memᴰ.tail k) m = distinct_disjoint xs ys (ground (arith, h)) k m

-- Where no name stands twice, it stands in one of the lists only.
pub distinct-concat :
    {n : String} {f g : List String} (fs : List (List String))
    → distinct (concat fs) ≡ true
    → Memᴰ f fs
    → Memᴰ g fs
    → Memᴰ n f
    → Memᴰ n g
    → f ≡ g
distinct-concat [] h k l a b = elim k [ ]
distinct-concat (x ∷ fs) h (Memᴰ.head e) (Memᴰ.head e') a b = e ∙ sym e'
distinct-concat {n} (x ∷ fs) h (Memᴰ.head e) (Memᴰ.tail k) a b =
    absurd (distinct_disjoint x (concat fs) h (subst (Memᴰ n) e a) (concat-mem fs k b))
distinct-concat {n} (x ∷ fs) h (Memᴰ.tail k) (Memᴰ.head e) a b =
    absurd (distinct_disjoint x (concat fs) h (subst (Memᴰ n) e b) (concat-mem fs k a))
distinct-concat (x ∷ fs) h (Memᴰ.tail k) (Memᴰ.tail k') a b =
    distinct-concat fs (distinct-append x (concat fs) h) k k' a b
