-- ===== src/Tests/Dispatching.antt =====
-- Requests and names of crates/quickmaild/src/daemon.rs at concrete values, through the theorems.
use quick_mail.Prelude.{
  All, ◌*◌, ◌+◌, String, true, false, not, List, [], ◌∷◌, ◌≡◌, refl, arith, filter,
}
use quick_mail.Codec.Chars.{all_chars, is_blank}
use quick_mail.Daemon.Addresses.{v4, v6, is_public_ip, is_special, address_of, is_public_ip_exact}
use quick_mail.Daemon.Dispatch.{group_ids, apply_provider_action}
use quick_mail.Daemon.Dispatch.Owners.{is_longest}
use quick_mail.Provider.{MailAction}
use quick_mail.Daemon.Dispatch.Groups.{ids_of, is_owner, noted, told, apply_provider_action_exact}
use quick_mail.Daemon.Files.{is_name_char, safe_attachment_name}
use quick_mail.Daemon.Files.Safe.{safe_attachment_name_clean}
use quick_mail.Imap.Error.{done}

-- One account's id begins another's.
abbrev two_accounts : List String
two_accounts = "work" ∷ "work:archive" ∷ []

abbrev selected_ids : List String
selected_ids = "work:1" ∷ "work:archive:7" ∷ "work:2" ∷ []

abbrev selected_groups : List (String × List String)
selected_groups = ("work", "work:1" ∷ "work:2" ∷ []) ∷ ("work:archive", "work:archive:7" ∷ []) ∷ []

selected : group_ids two_accounts selected_ids [] ≡ done selected_groups
unfolding group_ids
selected = refl

apply_provider_action_exact_example :
    (apply_provider_action two_accounts noted (MailAction.trash selected_ids) []
      ≡ (done tt, told (MailAction.trash selected_ids) selected_groups))
    × (ids_of "work:archive" selected_groups
        ≡ filter (is_owner two_accounts "work:archive") selected_ids)
    × All
        (λ id. is_longest two_accounts "work:archive" id ≡ true)
        (ids_of "work:archive" selected_groups)
unfolding quick_mail.Daemon.Dispatch.action_message_ids
apply_provider_action_exact_example =
    apply_provider_action_exact two_accounts (MailAction.trash selected_ids) selected_groups
      "work:archive" selected

-- The last address of the shared space.
is_public_ip_exact_example :
    (is_public_ip (v4 100 127 255 255) ≡ not (is_special (address_of 100 127 255 255)))
    × (is_public_ip (v6 0 0 0 0 0 0xffff (100 * 256 + 127) (255 * 256 + 255))
        ≡ not (is_special (address_of 100 127 255 255)))
is_public_ip_exact_example =
    is_public_ip_exact 100 127 255 255 (omega arith) (omega arith) (omega arith) (omega arith)

-- A path that a sender made up.
safe_attachment_name_clean_example :
    (all_chars is_name_char (safe_attachment_name "../../.ssh/in\\voice.pdf") ≡ true)
    × (is_blank (safe_attachment_name "../../.ssh/in\\voice.pdf") ≡ false)
safe_attachment_name_clean_example = safe_attachment_name_clean "../../.ssh/in\\voice.pdf"
