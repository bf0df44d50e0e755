-- ===== src/Oob/RoundTrip.antt =====
-- What one side sends as an out-of-band message the other side reads back.
use mcptp.Base.{ℕ, Bytes, String, true, Option, none, some, ℤ, ◌≡◌, refl, ap, ◌∙◌}
use mcptp.Json.{Json, Grammar, IsGrammar, printable, max_depth, fits_int, decode_int_pointer}
use mcptp.Oob.{
  Payload, start_ok, start_err, shutdown, server_exited, process_stderr, frame, received,
  read_message, pointer, Message, unmarshal_message, marshal_message, read_payload, type_of,
  marshal_payload,
}

abbrev pub FitsInt : Option ℤ → Type 0
FitsInt none = Unit
FitsInt (some n) = fits_int n ≡ true

-- The numbers of a payload are Go `int`s.
abbrev pub IsIntPayload : Payload → Type 0
IsIntPayload (start_ok pid) = fits_int pid ≡ true
IsIntPayload (server_exited m) = FitsInt m.exit_code
IsIntPayload _ = Unit

unmarshal_message-print :
    (G : Grammar) (m : Message) (v : Json)
    → IsGrammar G
    → printable max_depth (marshal_message m) ≡ true
    → m.payload ≡ some v
    → unmarshal_message G (G.print (marshal_message m)) ≡ some m
unfolding unmarshal_message
unmarshal_message-print G m v g d e = rw (g.parse-print (marshal_message m) d, e, unmarshal_message)

read_message-print :
    (G : Grammar) (m : Message) (v : Json)
    → IsGrammar G
    → printable max_depth (marshal_message m) ≡ true
    → m.payload ≡ some v
    → read_message G (G.print (marshal_message m)) ≡ read_payload G m
unfolding read_message
read_message-print G m v g d e = rw (unmarshal_message-print G m v g d e, read_message)

decode-pointer : (n : Option ℤ) → FitsInt n → decode_int_pointer (pointer n) none ≡ some n
decode-pointer none h = refl
decode-pointer (some n) h = rw h

pointer-printable : (depth : ℕ) (n : Option ℤ) → printable depth (pointer n) ≡ true
pointer-printable depth none = refl
pointer-printable depth (some n) = refl

marshal_message-printable :
    (utf8 : Bytes → String) (p : Payload)
    → printable max_depth
        (marshal_message (record { kind = type_of p; payload = some (marshal_payload utf8 p) }))
      ≡ true
marshal_message-printable utf8 (start_ok pid) = refl
marshal_message-printable utf8 (start_err e) = refl
marshal_message-printable utf8 shutdown = refl
marshal_message-printable utf8 (server_exited m) = rw (pointer-printable 9998 m.exit_code)
marshal_message-printable utf8 (process_stderr line) = refl

-- What the strings of a payload are as texts: each byte that is no UTF-8 gives U+FFFD.
abbrev pub as_utf8 : Grammar → Bytes → Bytes
as_utf8 G s = G.encode_utf8 (G.decode_utf8 s)

abbrev pub as_texts : Grammar → Payload → Payload
as_texts G (start_err e) = start_err (as_utf8 G e)
as_texts G (server_exited m) = server_exited (record m { error = as_utf8 G m.error })
as_texts G (process_stderr line) = process_stderr (as_utf8 G line)
as_texts G p = p

-- They are texts already.
abbrev pub IsUtf8 : Grammar → Payload → Type 0
IsUtf8 G (start_err e) = as_utf8 G e ≡ e
IsUtf8 G (server_exited m) = as_utf8 G m.error ≡ m.error
IsUtf8 G (process_stderr line) = as_utf8 G line ≡ line
IsUtf8 G p = Unit

read_payload-marshal :
    (G : Grammar) (p : Payload)
    → IsIntPayload p
    → read_payload G (record { kind = type_of p; payload = some (marshal_payload G.decode_utf8 p) })
      ≡ received (as_texts G p)
unfolding read_payload
read_payload-marshal G (start_ok pid) h = rw h
read_payload-marshal G (start_err e) h = refl
read_payload-marshal G shutdown h = refl
read_payload-marshal G (server_exited m) h = rw (decode-pointer m.exit_code h)
read_payload-marshal G (process_stderr line) h = refl

-- Every out-of-band message is read back as it was sent, field by field, its strings as texts.
pub read_message-frame :
    (G : Grammar)
    → IsGrammar G
    → (p : Payload) → IsIntPayload p
    → read_message G (frame G p) ≡ received (as_texts G p)
unfolding frame
read_message-frame G g p h =
    read_message-print G _ _ g (marshal_message-printable G.decode_utf8 p) refl
    ∙ read_payload-marshal G p h

as_texts-IsUtf8 : (G : Grammar) (p : Payload) → IsUtf8 G p → as_texts G p ≡ p
as_texts-IsUtf8 G (start_ok pid) h = refl
as_texts-IsUtf8 G (start_err e) h = ap start_err h
as_texts-IsUtf8 G shutdown h = refl
as_texts-IsUtf8 G (server_exited m) h = ap (λ e. server_exited (record m { error = e })) h
as_texts-IsUtf8 G (process_stderr line) h = ap process_stderr h
