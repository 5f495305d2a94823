-- ===== src/Imap/StableId.antt =====
-- `StableImapId`: the id of a message on its server, `imap:validity:uid:mailbox`, the mailbox in
-- hexadecimal.
pub mod RoundTrip
use Prim.Native.String.{◌++◌}
use quick_mail.Prelude.{
  ℕ, ◌^◌, ◌<◌, String, Bool, true, false, Option, none, some, List, [], ◌∷◌, ◌==◌, string_eq, ◌≡◌,
  refl, arith, ltb, if◌then◌else◌,
}
use quick_mail.Codec.Decimal.{show_u64, parse_u64}
use quick_mail.Codec.Hex.{encode_hex, decode_hex}
use quick_mail.Codec.Split.{split_colons}
use quick_mail.Codec.Utf8.{as_bytes}
use quick_mail.Imap.Error.{Reply, done, fail, ImapError, invalid_stable_id}
use quick_mail.Models.Ids.{strip_prefix}

pub record StableImapId : Type 0 where
  pub mailbox : String
  pub uid_validity : ℕ
  pub uid : ℕ

-- `filter(|uid| *uid > 0)`.
abbrev pub positive : Option ℕ → Option ℕ
positive none = none
positive (some n) = if ltb 0 n then some n else none

-- `and_then(|value| value.parse().ok())` and the tests of the parts, in their order; each failure is
-- the same error.
unfoldable pub stable_id_of_parts : String → String → String → Option StableImapId
unfolding parse_u64 decode_hex
stable_id_of_parts validity uid mailbox = elim (parse_u64 validity) [
  | none ↦ none
  | some v ↦ elim (positive (parse_u64 uid)) [
    | none ↦ none
    | some u ↦ elim (decode_hex mailbox) [
      | none ↦ none
      | some m ↦ some (record { mailbox = m; uid_validity = v; uid = u })
    ]
  ]
]

-- Exactly four parts, the first of them `imap`.
unfoldable pub stable_id_of_list : List String → Option StableImapId
unfolding stable_id_of_parts
stable_id_of_list (a ∷ b ∷ c ∷ d ∷ []) = if a == "imap" then stable_id_of_parts b c d else none
stable_id_of_list _ = none

unfoldable pub parse_stable_id : String → Reply ImapError StableImapId
unfolding stable_id_of_list split_colons
parse_stable_id value = elim (stable_id_of_list (split_colons value)) [
  | none ↦ fail invalid_stable_id
  | some id ↦ done id
]

unfoldable pub show_stable_id : StableImapId → String
unfolding show_u64 encode_hex as_bytes
show_stable_id id =
    "imap"
    ++ (":"
        ++ (show_u64 id.uid_validity
            ++ (":" ++ (show_u64 id.uid ++ (":" ++ encode_hex (as_bytes id.mailbox))))))

-- What an id of the account holds behind the colon, if that is an id of IMAP.
unfoldable pub provider_native_id : String → String → Option String
provider_native_id account_id id = elim (strip_prefix account_id id) [
  | none ↦ none
  | some suffix ↦ elim (strip_prefix ":" suffix) [
    | none ↦ none
    | some native ↦ elim (strip_prefix "imap:" native) [ none ↦ none | some rest ↦ some native ]
  ]
]
