-- ===== src/Imap/Smtp.antt =====
-- Sending of mail in crates/quickmaild/src/providers/imap_smtp.rs: addresses, the form of the data,
-- and the transaction on a connection. Bytes are numbers.
pub mod Data
use Prim.Native.Char.{Char, code}
use Prim.Native.String.{◌++◌, len}
use quick_mail.Prelude.{
  ℕ, zero, suc, String, Bool, true, false, not, ◌&&◌, ◌||◌, Option, none, some, List, [], ◌∷◌,
  ◌++◌ as ◌++ᴸ◌, ltb, nat_beq, ◌==◌, string_eq, if◌then◌else◌,
}
use quick_mail.Codec.Chars.{any_char}
use quick_mail.Imap.Error.{Reply, done, fail, SmtpError, smtp_error}

abbrev is_one_of_five : Char → Bool
is_one_of_five c =
    nat_beq (code c) 13
    || (nat_beq (code c) 10
        || (nat_beq (code c) 0 || (nat_beq (code c) b'<' || nat_beq (code c) b'>')))

abbrev is_at : Char → Bool
is_at c = nat_beq (code c) b'@'

-- Not empty, at most 320 bytes, no line break, no NUL, no angle bracket, and an `@`.
unfoldable pub validate_smtp_address : String → Reply SmtpError (Unit {0})
validate_smtp_address address =
    if address == ""
      || (ltb 320 (len address)
          || (any_char is_one_of_five address || not (any_char is_at address)))
    then fail (smtp_error "invalid SMTP envelope address" false)
    else done tt

-- The first loop of `dot_stuff`: a dot at the start of a line is doubled.
unfoldable pub stuff : Bool → List ℕ → List ℕ
stuff line_start [] = []
stuff line_start (byte ∷ message) =
    let rest = byte ∷ stuff (nat_beq byte 10) message in
    if line_start && nat_beq byte b'.' then b'.' ∷ rest else rest

-- The second loop, from the end of the text backwards: line breaks go, CRLF or LF. `after_lf` says
-- that the byte behind was the LF of a line break.
unfoldable pub drop_breaks : Bool → List ℕ → List ℕ
drop_breaks after_lf [] = []
drop_breaks after_lf (byte ∷ before) =
    let rest = drop_breaks (nat_beq byte 10) before in
    if nat_beq byte 10 || after_lf && nat_beq byte 13 then rest else byte ∷ before

-- `push` at the front of the reversed list.
unfoldable pub reverse_onto : List ℕ → List ℕ → List ℕ
reverse_onto [] out = out
reverse_onto (x ∷ xs) out = reverse_onto xs (x ∷ out)

unfoldable pub dot_stuff : List ℕ → List ℕ
unfolding stuff drop_breaks reverse_onto
dot_stuff message = reverse_onto (drop_breaks false (reverse_onto (stuff true message) [])) []

-- What follows DATA on the connection.
unfoldable pub data_of : List ℕ → List ℕ
unfolding dot_stuff
data_of message = dot_stuff message ++ᴸ (13 ∷ 10 ∷ b'.' ∷ 13 ∷ 10 ∷ [])
