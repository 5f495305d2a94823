-- ===== src/Imap/StableId/RoundTrip.antt =====
-- Ids of IMAP messages are read back as they were printed.
use Prim.Native.Char.{code}
use Prim.Native.String.{◌++◌}
use text.Mathlib.TextLemmas.{nil-append, cons-append, append_assoc}
use quick_mail.Prelude.{
  ◌^◌, ◌<◌, String, some, [], ◌∷◌, string_eq, ◌≡◌, refl, ap, sym, ◌∙◌, lt→ltb, nat_beq_iff,
}
use quick_mail.Codec.Decimal.{show_u64, parse_u64-show_u64, all_digits-show_u64}
use quick_mail.Codec.Hex.{encode_hex, decode_hex-encode_hex, no_colon-encode_hex}
use quick_mail.Codec.Split.{
  split_colons, split_colons-append, split_colons-last, no_colon, all_digits-no_colon,
}
use quick_mail.Codec.Utf8.{as_bytes}
use quick_mail.Codec.Utf8.RoundTrip.{as_bytes-IsByte}
use quick_mail.Imap.Error.{done}
use quick_mail.Imap.StableId.{
  StableImapId, stable_id_of_parts, stable_id_of_list, parse_stable_id, show_stable_id,
  provider_native_id,
}
use quick_mail.Models.Ids.{strip_prefix, normalized_message_id}

split_colons-show_stable_id :
    (id : StableImapId)
    → id.uid_validity < 2 ^ 64
    → id.uid < 2 ^ 64
    → split_colons (show_stable_id id)
      ≡ "imap" ∷ show_u64 id.uid_validity ∷ show_u64 id.uid ∷ encode_hex (as_bytes id.mailbox) ∷ []
unfolding show_stable_id no_colon
split_colons-show_stable_id id hv hu =
    let validity = show_u64 id.uid_validity in
    let uid = show_u64 id.uid in
    let mailbox = encode_hex (as_bytes id.mailbox) in
    rw
      (
        split_colons-append "imap" (validity ++ (":" ++ (uid ++ (":" ++ mailbox)))) refl,
        split_colons-append validity (uid ++ (":" ++ mailbox))
            (all_digits-no_colon validity (all_digits-show_u64 id.uid_validity hv)),
        split_colons-append uid mailbox (all_digits-no_colon uid (all_digits-show_u64 id.uid hu)),
        split_colons-last mailbox
            (no_colon-encode_hex (as_bytes id.mailbox) (as_bytes-IsByte id.mailbox)),
      )
      refl

-- An id whose numbers fit a u64 and whose UID is positive is read back from its text, whatever
-- characters the name of the mailbox has.
pub parse_stable_id-show_stable_id :
    (id : StableImapId)
    → id.uid_validity < 2 ^ 64
    → 0 < id.uid
    → id.uid < 2 ^ 64
    → parse_stable_id (show_stable_id id) ≡ done id
unfolding parse_stable_id stable_id_of_parts stable_id_of_list
parse_stable_id-show_stable_id id hv positive hu =
    rw
      (
        parse_stable_id,
        split_colons-show_stable_id id hv hu,
        parse_u64-show_u64 id.uid_validity hv,
        parse_u64-show_u64 id.uid hu,
        lt→ltb 0 id.uid positive,
        decode_hex-encode_hex id.mailbox,
      )
      refl

pub strip_prefix-append : (p s : String) → strip_prefix p (p ++ s) ≡ some s
strip_prefix-append String.[] s = rw (nil-append s) refl
strip_prefix-append (String.◌∷◌ c p) s =
    rw (cons-append c p s, (nat_beq_iff (code c) (code c)).1 refl) (strip_prefix-append p s)

strip_imap : (rest : String) → strip_prefix "imap:" ("imap" ++ (":" ++ rest)) ≡ some rest
strip_imap rest =
    ap (strip_prefix "imap:") (sym (append_assoc "imap" ":" rest))
    ∙ strip_prefix-append "imap:" rest

native_of_normalized :
    (account_id rest : String)
    → provider_native_id account_id (normalized_message_id account_id ("imap" ++ (":" ++ rest)))
      ≡ some ("imap" ++ (":" ++ rest))
unfolding provider_native_id normalized_message_id
native_of_normalized account_id rest =
    rw
      (
        provider_native_id,
        strip_prefix-append account_id (":" ++ ("imap" ++ (":" ++ rest))),
        strip_prefix-append ":" ("imap" ++ (":" ++ rest)),
        strip_imap rest,
      )
      refl

-- The daemon's id of a message of IMAP leads back to the id on the server.
pub provider_native_id-normalized_message_id :
    (account_id : String) (id : StableImapId)
    → provider_native_id account_id (normalized_message_id account_id (show_stable_id id))
      ≡ some (show_stable_id id)
unfolding show_stable_id
provider_native_id-normalized_message_id account_id id = native_of_normalized account_id (
    show_u64 id.uid_validity
    ++ (":" ++ (show_u64 id.uid ++ (":" ++ encode_hex (as_bytes id.mailbox)))))
