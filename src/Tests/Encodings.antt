-- ===== src/Tests/Encodings.antt =====
-- Texts and bytes of crates/quickmaild/src/providers at concrete values, through the theorems.
use Prim.Native.String.{◌++◌}
use quick_mail.Prelude.{
  false, ℕ, ◌<◌, String, true, some, List, [], ◌∷◌, ◌++◌ as ◌++ᴸ◌, All, ◌≡◌, refl, arith,
}
use quick_mail.Codec.Base64.{base64_url_encode, base64_url_decode, wrap_base64, decode_base64}
use quick_mail.Codec.Base64.Lines.{decode_base64-wrap_base64}
use quick_mail.Codec.Base64.RoundTrip.{base64_url_decode-base64_url_encode}
use quick_mail.Codec.Utf8.{as_bytes}
use quick_mail.Imap.Error.{done}
use quick_mail.Imap.Smtp.{dot_stuff}
use quick_mail.Imap.Smtp.Data.{has_crlf_lines, unstuff, IsBreak, unstuff-dot_stuff}
use quick_mail.Imap.StableId.{StableImapId, parse_stable_id, show_stable_id}
use quick_mail.Imap.StableId.RoundTrip.{parse_stable_id-show_stable_id}
use quick_mail.Imap.Transport.{is_prohibited, quote_imap}
use quick_mail.Imap.Transport.Quoting.{read_string, read_string-quote_imap}

-- "Ä" in a mailbox's name.
abbrev drafts_id : StableImapId
drafts_id = record { mailbox = "Entwürfe/Ä"; uid_validity = 1700000000; uid = 42 }

shown : show_stable_id drafts_id ≡ "imap:1700000000:42:456e7477c3bc7266652fc384"
unfolding show_stable_id quick_mail.Codec.Decimal.emit quick_mail.Codec.Decimal.digit
shown = refl

parse_stable_id-show_stable_id_example : parse_stable_id (show_stable_id drafts_id) ≡ done drafts_id
parse_stable_id-show_stable_id_example =
    parse_stable_id-show_stable_id drafts_id (omega arith) (omega arith) (omega arith)

read_string-quote_imap_example :
    (quoted : String) × (quote_imap "a\"b\\ (X" ≡ done quoted)
    × (read_string (quoted ++ " UNSEEN") ≡ some ("a\"b\\ (X", " UNSEEN"))
unfolding is_prohibited
read_string-quote_imap_example = read_string-quote_imap "a\"b\\ (X" " UNSEEN" refl

-- Two lines that start with a dot, and an empty line at the end.
unstuff-dot_stuff_example :
    (breaks : List ℕ) × All IsBreak breaks
    × (unstuff true false (dot_stuff (as_bytes ".a\r\n.\r\nb\r\n\r\n") ++ᴸ breaks)
        ≡ as_bytes ".a\r\n.\r\nb\r\n\r\n")
unfolding as_bytes has_crlf_lines
unstuff-dot_stuff_example = unstuff-dot_stuff (as_bytes ".a\r\n.\r\nb\r\n\r\n") refl

stuffed : dot_stuff (as_bytes ".a\r\n.\r\nb\r\n\r\n") ≡ as_bytes "..a\r\n..\r\nb"
unfolding dot_stuff as_bytes
stuffed = refl

abbrev octets : List ℕ
octets = 0 ∷ 255 ∷ 128 ∷ 7 ∷ []

octets-IsByte : All (λ b. b < 256) octets
octets-IsByte = ((omega arith), ((omega arith), ((omega arith), ((omega arith), tt))))

base64_url_decode-base64_url_encode_example :
    base64_url_decode (base64_url_encode octets) ≡ some octets
base64_url_decode-base64_url_encode_example =
    base64_url_decode-base64_url_encode octets octets-IsByte

decode_base64-wrap_base64_example : decode_base64 (wrap_base64 octets) ≡ some octets
decode_base64-wrap_base64_example = decode_base64-wrap_base64 octets octets-IsByte
