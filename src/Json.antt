-- ===== src/Json.antt =====
-- What the program uses of encoding/json: the values of the JSON grammar, and how `json.Unmarshal`
-- binds an object to the fields of a struct (a decoder for each Go type, the tags' names compared
-- with case folded, unknown keys skipped). The text of a value is the parameter `Grammar`.
use mcptp.Base.{
  ℕ, zero, suc, ◌-◌, ◌≡◌, refl, Bool, true, false, ◌&&◌, Option, none, some, [], ◌∷◌, map, String,
  Bytes, codes, leb, ◌==◌, if◌then◌else◌, ℤ, pos, negsuc, leb_ℤ,
}

mutual
  pub data Json : Type 0 where
    null : Json
    boolean : Bool → Json
    integer : ℤ → Json  -- a number literal without fraction or exponent
    real : String → Json  -- any other number literal
    text : String → Json
    array : Items → Json
    object : Fields → Json

  pub data Items : Type 0 where
    nil : Items
    cons : Json → Items → Items

  pub data Fields : Type 0 where
    end : Fields
    field : String → Json → Fields → Fields

-- `none` is a syntax error. `decode_utf8` is the text that json.Marshal writes for the bytes of a Go
-- string, with U+FFFD for those that are no UTF-8, and `encode_utf8` gives the bytes of a text.
-- `float` tells of a number whether strconv.ParseFloat takes its literal: it is not outside float64.
pub record Grammar : Type 0 where
  pub parse : Bytes → Option Json
  pub print : Json → Bytes
  pub decode_utf8 : Bytes → String
  pub encode_utf8 : String → Bytes
  pub float : Json → Bool

-- A value that is at most so many levels deep, and whose numbers are integers.
abbrev mutual
  pub printable : ℕ → Json → Bool
  printable _ null = true
  printable _ (boolean b) = true
  printable _ (integer n) = true
  printable _ (real s) = false
  printable _ (text s) = true
  printable zero (array vs) = false
  printable (suc depth) (array vs) = items_printable depth vs
  printable zero (object fields) = false
  printable (suc depth) (object fields) = fields_printable depth fields

  pub items_printable : ℕ → Items → Bool
  items_printable depth nil = true
  items_printable depth (cons v vs) = printable depth v && items_printable depth vs

  pub fields_printable : ℕ → Fields → Bool
  fields_printable depth end = true
  fields_printable depth (field key v fields) = printable depth v && fields_printable depth fields

-- Beyond this depth json.Unmarshal gives an error.
abbrev pub max_depth : ℕ
max_depth = 10000

-- Marshalled text is read back as the value that it was made from, and the bytes of a text as the
-- text.
pub record IsGrammar (G : Grammar) : Type 0 where
  pub parse-print : (v : Json) → printable max_depth v ≡ true → G.parse (G.print v) ≡ some v
  pub decode-encode : (s : String) → G.decode_utf8 (G.encode_utf8 s) ≡ s

-- json.RawMessage: `none` is the empty message, otherwise the value that its text stands for.
abbrev pub RawMessage : Type 0
RawMessage = Option Json

-- Case folding as `foldName` does it, on the characters that can meet an ASCII name: the long s
-- and the Kelvin sign fold to S and K.
abbrev pub fold_rune : ℕ → ℕ
fold_rune c =
    if leb b'a' c && leb c b'z'
    then c - 32
    else if c == 0x17f
    then b'S'
    else if c == 0x212a
    then b'K'
    else c

-- `bytes.Equal`
abbrev pub equal : Bytes → Bytes → Bool
equal [] [] = true
equal (x ∷ xs) (y ∷ ys) = x == y && equal xs ys
equal _ _ = false

abbrev pub same_name : String → String → Bool
same_name key name = equal (map fold_rune (codes key)) (map fold_rune (codes name))

-- A decoder gives the new content of a variable from a value and the old content; `none` is an
-- UnmarshalTypeError.
abbrev pub Decoder : Type 0 → Type 0
Decoder A = Json → A → Option A

abbrev pub decode_string : Decoder String
decode_string null old = some old
decode_string (text s) old = some s
decode_string _ old = none

-- A Go string that may hold any bytes.
abbrev pub decode_bytes : Grammar → Decoder Bytes
decode_bytes G null old = some old
decode_bytes G (text s) old = some (G.encode_utf8 s)
decode_bytes G _ old = none

abbrev pub decode_bool : Decoder Bool
decode_bool null old = some old
decode_bool (boolean b) old = some b
decode_bool _ old = none

-- `int` has 64 bits.
abbrev pub fits_int : ℤ → Bool
fits_int n = leb_ℤ (negsuc 9223372036854775807) n && leb_ℤ n (pos 9223372036854775807)

abbrev pub decode_int : Decoder ℤ
decode_int null old = some old
decode_int (integer n) old = if fits_int n then some n else none
decode_int _ old = none

-- `*int`
abbrev pub decode_int_pointer : Decoder (Option ℤ)
decode_int_pointer null old = some none
decode_int_pointer (integer n) old = if fits_int n then some (some n) else none
decode_int_pointer _ old = none

abbrev pub decode_raw : Decoder RawMessage
decode_raw v old = some (some v)

-- Every number in a value is one that becomes a float64.
abbrev mutual
  pub all_floats : Grammar → Json → Bool
  all_floats G (integer n) = G.float (integer n)
  all_floats G (real s) = G.float (real s)
  all_floats G (array vs) = items_floats G vs
  all_floats G (object fields) = fields_floats G fields
  all_floats G _ = true

  pub items_floats : Grammar → Items → Bool
  items_floats G nil = true
  items_floats G (cons v vs) = all_floats G v && items_floats G vs

  pub fields_floats : Grammar → Fields → Bool
  fields_floats G end = true
  fields_floats G (field key v fields) = all_floats G v && fields_floats G fields

-- `any`
abbrev pub decode_any : Grammar → Decoder (Option Json)
decode_any G null old = some none
decode_any G v old = if all_floats G v then some (some v) else none

infixl 5 ◌>>=◌
abbrev pub ◌>>=◌ {ℓ κ} : {A : Type ℓ} {B : Type κ} → Option A → (A → Option B) → Option B
none >>= f = none
some a >>= f = f a

-- Every value under a key with the field's name is decoded into the field, in order.
abbrev pub bind_field : {A : Type 0} → String → Decoder A → Fields → Option A → Option A
bind_field name decode end slot = slot
bind_field name decode (field key v fields) slot =
    bind_field name decode fields (if same_name key name then slot >>= decode v else slot)

-- The members of the object that is decoded into a struct: `null` leaves the struct as it is.
abbrev pub members : Json → Option Fields
members null = some end
members (object fields) = some fields
members _ = none

-- No key of the object is taken for the name.
abbrev pub Lacks : String → Fields → Type 0
Lacks name end = Unit
Lacks name (field key v fields) = (same_name key name ≡ false) × Lacks name fields

pub bind_field-Lacks :
    {A : Type 0} (name : String) (decode : Decoder A) (fields : Fields) (slot : Option A)
    → Lacks name fields
    → bind_field name decode fields slot ≡ slot
bind_field-Lacks name decode end slot h = refl
bind_field-Lacks name decode (field key v fields) slot h =
    rw h.0 (bind_field-Lacks name decode fields slot h.1)
