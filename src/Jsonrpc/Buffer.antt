-- ===== src/Jsonrpc/Buffer.antt =====
-- What protocol/jsonrpcv2/accumulator.go uses of bytes.Buffer and bytes.IndexByte: the value of a
-- buffer is its unread bytes.
use mcptp.Base.{
  ℕ, zero, suc, Option, none, some, [], ◌∷◌, ◌++◌, Bytes, take, drop, ◌==◌, if◌then◌else◌,
}

-- `IndexByte(b, c)`, with `none` for -1.
unfoldable pub index_byte : Bytes → ℕ → Option ℕ
index_byte [] c = none
index_byte (b ∷ bs) c =
    if b == c then some 0 else elim (index_byte bs c) [ none ↦ none | some i ↦ some (suc i) ]

-- `Write` appends, and always succeeds.
abbrev pub write : Bytes → Bytes → Bytes
write buffer p = buffer ++ p

-- `Read` into a slice of n bytes: the bytes read and the buffer left. `none` is io.EOF, which an
-- empty buffer gives if n is not 0.
abbrev pub read : Bytes → ℕ → Option (Bytes × Bytes)
read [] zero = some ([], [])
read [] (suc n) = none
read (b ∷ bs) n = some (take n (b ∷ bs), drop n (b ∷ bs))

-- `Next(n)`, of which only the buffer left is used.
abbrev pub next : Bytes → ℕ → Bytes
next buffer n = drop n buffer
