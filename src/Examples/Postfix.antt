-- ===== src/Examples/Postfix.antt =====
-- A grammar for the examples: values in postfix notation, two numbers to an instruction. It is not
-- the JSON text, and shows that what is assumed of `Grammar` can be met.
use Prim.Native.Char.{Char, char, code, IsScalar, IsLt}
use Prim.Native.Nat.{compare, Ordering}
use Prim.Native.String.{String}
use mcptp.Base.{
  ℕ, ◌≡◌, refl, ap, ◌∙◌, Bool, not, str_eq, true, false, Option, none, some, List, [], ◌∷◌, ◌++◌,
  append-nil, append_assoc, Bytes, ◌==◌, if◌then◌else◌, pos, negsuc,
}
use mcptp.Json.{
  Json, null, boolean, integer, real, text, array, object, Items, nil, cons, Fields, end, field,
  Grammar, IsGrammar,
}
use package.text.Mathlib.TextEquality.{Char-path}

pub data Cell : Type 0 where
  value : Json → Cell
  items : Items → Cell
  fields : Fields → Cell
  string : String → Cell

abbrev Both : Ordering → Ordering → Type 0
Both Ordering.lt o = IsLt o
Both Ordering.eq _ = ⊥
Both Ordering.gt _ = ⊥

abbrev Scalar : Ordering → Ordering → Ordering → Type 0
Scalar Ordering.lt _ _ = Unit
Scalar Ordering.eq o p = Both o p
Scalar Ordering.gt o p = Both o p

abbrev dec_less : (o : Ordering) → Dec (IsLt o)
dec_less Ordering.lt = yes tt
dec_less Ordering.eq = no (λ h. h)
dec_less Ordering.gt = no (λ h. h)

abbrev dec_both : (o p : Ordering) → Dec (Both o p)
dec_both Ordering.lt p = dec_less p
dec_both Ordering.eq p = no (λ h. h)
dec_both Ordering.gt p = no (λ h. h)

abbrev dec_of : (o p q : Ordering) → Dec (Scalar o p q)
dec_of Ordering.lt p q = yes tt
dec_of Ordering.eq p q = dec_both p q
dec_of Ordering.gt p q = dec_both p q

abbrev dec_scalar : (n : ℕ) → Dec (IsScalar n)
dec_scalar n = dec_of (compare n 55296) (compare 57343 n) (compare n 1114112)

abbrev made : (n : ℕ) → Dec (IsScalar n) → Option Char
made n (yes p) = some (char n p)
made n (no _) = none

abbrev char_of : ℕ → Option Char
char_of n = made n (dec_scalar n)

made-code : (c : Char) (d : Dec (IsScalar (code c))) → made (code c) d ≡ some c
made-code c (yes p) = ap some (Char-path _ c refl)
made-code (char n p) (no q) = absurd (q p)

push_char : Option Char → String → List Cell → Option (List Cell)
push_char none s st = none
push_char (some c) s st = some (string (String.◌∷◌ c s) ∷ st)

-- The instructions that pop a cell or two.
pop_string : ℕ → ℕ → List Cell → Option (List Cell)
unfolding push_char
pop_string op arg (string s ∷ st) =
    if op == 0
    then push_char (char_of arg) s st
    else if op == 1
    then some (value (text s) ∷ st)
    else some (value (real s) ∷ st)
pop_string op arg _ = none

pop_one : ℕ → List Cell → Option (List Cell)
pop_one op (items xs ∷ st) = some (value (array xs) ∷ st)
pop_one op (fields fs ∷ st) = some (value (object fs) ∷ st)
pop_one op _ = none

pop_cons : List Cell → Option (List Cell)
pop_cons (value v ∷ items xs ∷ st) = some (items (cons v xs) ∷ st)
pop_cons _ = none

pop_field : List Cell → Option (List Cell)
pop_field (string k ∷ value v ∷ fields fs ∷ st) = some (fields (field k v fs) ∷ st)
pop_field _ = none

step : ℕ → ℕ → List Cell → Option (List Cell)
unfolding pop_string pop_one pop_cons pop_field
step op arg st =
    if op == 0
    then some (value null ∷ st)
    else if op == 1
    then some (value (boolean (arg == 1)) ∷ st)
    else if op == 2
    then some (value (integer (pos arg)) ∷ st)
    else if op == 3
    then some (value (integer (negsuc arg)) ∷ st)
    else if op == 4
    then some (string String.[] ∷ st)
    else if op == 5
    then pop_string 0 arg st
    else if op == 6
    then pop_string 1 arg st
    else if op == 7
    then pop_string 2 arg st
    else if op == 8
    then some (items nil ∷ st)
    else if op == 9
    then some (fields end ∷ st)
    else if op == 13
    then pop_one arg st
    else if op == 11
    then pop_cons st
    else pop_field st

-- A newline behind the instructions is skipped.
run : Bytes → Option (List Cell) → Option (List Cell)
run [] st = st
run (op ∷ []) st = if op == b'\n' then st else none
run (op ∷ arg ∷ more) none = none
run (op ∷ arg ∷ more) (some st) = run more (step op arg st)

print_string : String → Bytes
print_string String.[] = 4 ∷ 0 ∷ []
print_string (String.◌∷◌ c s) = print_string s ++ (5 ∷ code c ∷ [])

mutual
  print : Json → Bytes
  print null = 0 ∷ 0 ∷ []
  print (boolean true) = 1 ∷ 1 ∷ []
  print (boolean false) = 1 ∷ 0 ∷ []
  print (integer (pos n)) = 2 ∷ n ∷ []
  print (integer (negsuc n)) = 3 ∷ n ∷ []
  print (real s) = print_string s ++ (7 ∷ 0 ∷ [])
  print (text s) = print_string s ++ (6 ∷ 0 ∷ [])
  print (array xs) = print_items xs ++ (13 ∷ 0 ∷ [])
  print (object fs) = print_fields fs ++ (13 ∷ 0 ∷ [])

  print_items : Items → Bytes
  print_items nil = 8 ∷ 0 ∷ []
  print_items (cons v xs) = print_items xs ++ (print v ++ (11 ∷ 0 ∷ []))

  print_fields : Fields → Bytes
  print_fields end = 9 ∷ 0 ∷ []
  print_fields (field k v fs) = print_fields fs ++ (print v ++ (print_string k ++ (12 ∷ 0 ∷ [])))

run-print_string :
    (s : String) (rest : Bytes) (st : List Cell)
    → run (print_string s ++ rest) (some st) ≡ run rest (some (string s ∷ st))
unfolding run step print_string
run-print_string String.[] rest st = refl
run-print_string (String.◌∷◌ c s) rest st =
    rw (append_assoc (print_string s))
      (run-print_string s (5 ∷ code c ∷ rest) st ∙ rw (made-code c (dec_scalar (code c))))

mutual
  unfolding run step print

  run-print :
      (v : Json) (rest : Bytes) (st : List Cell)
      → run (print v ++ rest) (some st) ≡ run rest (some (value v ∷ st))
  run-print null rest st = refl
  run-print (boolean true) rest st = refl
  run-print (boolean false) rest st = refl
  run-print (integer (pos n)) rest st = refl
  run-print (integer (negsuc n)) rest st = refl
  run-print (real s) rest st =
      rw (append_assoc (print_string s)) (run-print_string s (7 ∷ 0 ∷ rest) st)
  run-print (text s) rest st =
      rw (append_assoc (print_string s)) (run-print_string s (6 ∷ 0 ∷ rest) st)
  run-print (array xs) rest st =
      rw (append_assoc (print_items xs)) (run-print_items xs (13 ∷ 0 ∷ rest) st)
  run-print (object fs) rest st =
      rw (append_assoc (print_fields fs)) (run-print_fields fs (13 ∷ 0 ∷ rest) st)

  run-print_items :
      (xs : Items) (rest : Bytes) (st : List Cell)
      → run (print_items xs ++ rest) (some st) ≡ run rest (some (items xs ∷ st))
  run-print_items nil rest st = refl
  run-print_items (cons v xs) rest st =
      rw (append_assoc (print_items xs), append_assoc (print v))
        (run-print_items xs (print v ++ 11 ∷ 0 ∷ rest) st
          ∙ run-print v (11 ∷ 0 ∷ rest) (items xs ∷ st))

  run-print_fields :
      (fs : Fields) (rest : Bytes) (st : List Cell)
      → run (print_fields fs ++ rest) (some st) ≡ run rest (some (fields fs ∷ st))
  run-print_fields end rest st = refl
  run-print_fields (field k v fs) rest st =
      rw (append_assoc (print_fields fs), append_assoc (print v), append_assoc (print_string k))
        (run-print_fields fs (print v ++ (print_string k ++ 12 ∷ 0 ∷ rest)) st
          ∙ run-print v (print_string k ++ 12 ∷ 0 ∷ rest) (fields fs ∷ st)
          ∙ run-print_string k (12 ∷ 0 ∷ rest) (value v ∷ fields fs ∷ st))

only : Option (List Cell) → Option Json
only (some (value v ∷ [])) = some v
only _ = none

-- No literal but this one is taken to be out of the range of a float64.
abbrev fits_float : Json → Bool
fits_float (real s) = not (str_eq s "1e999")
fits_float _ = true

-- A text is the list of its code points, and what is none of them is read as U+FFFD.
abbrev kept : Option Char → Char
kept none = char 65533 tt
kept (some c) = c

codes : String → Bytes
codes String.[] = []
codes (String.◌∷◌ c s) = code c ∷ codes s

chars : Bytes → String
chars [] = String.[]
chars (n ∷ b) = String.◌∷◌ (kept (char_of n)) (chars b)

chars-codes : (s : String) → chars (codes s) ≡ s
unfolding chars codes
chars-codes String.[] = refl
chars-codes (String.◌∷◌ c s) = rw (made-code c (dec_scalar (code c)), chars-codes s) refl

unfoldable pub postfix : Grammar
unfolding only run step print print_string chars codes
postfix = record {
  parse = λ b. only (run b (some []));
  print = print;
  float = fits_float;
  decode_utf8 = chars;
  encode_utf8 = codes;
}

pub postfix-IsGrammar : IsGrammar postfix
unfolding postfix
postfix-IsGrammar = record {
  parse-print = λ v d. rw (← append-nil (print v)) (rw (run-print v [] []));
  decode-encode = chars-codes;
}
