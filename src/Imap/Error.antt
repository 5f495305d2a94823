-- ===== src/Imap/Error.antt =====
-- The errors of crates/quickmaild/src/providers/imap_smtp.rs and what they become for the daemon.
use Prim.Native.String.{◌++◌}
use quick_mail.Prelude.{String, Bool, true, false, not, ◌&&◌, Option, none, some, if◌then◌else◌}
use quick_mail.Provider.{ProviderError}

-- `Result`.
pub data Reply {ℓ κ} (E : Type ℓ) (A : Type κ) : Type (ℓ ⊔ κ) where
  done : A → Reply E A
  fail : E → Reply E A

abbrev pub map_err {ℓ} : {E F A : Type ℓ} → (E → F) → Reply E A → Reply F A
map_err f (done a) = done a
map_err f (fail e) = fail (f e)

-- `Option::ok_or`.
abbrev pub ok_or {ℓ} : {E A : Type ℓ} → E → Option A → Reply E A
ok_or e none = fail e
ok_or e (some a) = done a

pub data ImapError : Type 0 where
  invalid_configuration : String → ImapError
  authentication : ImapError
  not_found : ImapError
  missing_message_size : ImapError
  message_too_large : ImapError
  missing_uid_validity : ImapError
  invalid_stable_id : ImapError
  invalid_cursor : ImapError
  connection : String → ImapError
  protocol : String → ImapError
  command_timeout : ImapError

pub data SmtpError : Type 0 where
  smtp_error : String → Bool → SmtpError

pub data SessionErrorAction : Type 0 where
  return_error invalidate_and_return invalidate_and_retry : SessionErrorAction

-- Only a lost connection is worth another attempt.
unfoldable pub is_stale : ImapError → Bool
is_stale (connection reason) = true
is_stale command_timeout = true
is_stale _ = false

unfoldable pub session_error_action : ImapError → Bool → Bool → SessionErrorAction
unfolding is_stale
session_error_action error retry_safe already_retried =
    if not (is_stale error)
    then return_error
    else if retry_safe && not already_retried
    then invalidate_and_retry
    else invalidate_and_return

-- The texts of `#[error(...)]`.
unfoldable pub show_imap_error : ImapError → String
show_imap_error (invalid_configuration reason) = "invalid IMAP/SMTP configuration: " ++ reason
show_imap_error authentication = "IMAP authentication failed"
show_imap_error not_found = "IMAP resource was not found"
show_imap_error missing_message_size = "FETCH response did not include RFC822.SIZE"
show_imap_error message_too_large = "message exceeds the configured IMAP size limit"
show_imap_error missing_uid_validity = "SELECT response did not include UIDVALIDITY"
show_imap_error invalid_stable_id = "invalid stable IMAP message ID"
show_imap_error invalid_cursor = "invalid IMAP UID cursor"
show_imap_error (connection reason) = "IMAP connection failure: " ++ reason
show_imap_error (protocol reason) = "IMAP protocol failure: " ++ reason
show_imap_error command_timeout = "IMAP command timed out"

unfoldable pub provider_error : ImapError → ProviderError
unfolding show_imap_error
provider_error authentication = ProviderError.authentication "IMAP login failed"
provider_error not_found = ProviderError.not_found
provider_error message_too_large = ProviderError.resource_too_large "message"
provider_error error = ProviderError.temporary (show_imap_error error)

unfoldable pub smtp_provider_error : SmtpError → ProviderError
smtp_provider_error (smtp_error reason true) =
    ProviderError.authentication ("SMTP delivery failed: " ++ reason)
smtp_provider_error (smtp_error reason false) =
    ProviderError.temporary ("SMTP delivery failed: " ++ reason)

infixl 5 ◌>>=◌
-- The `?` of Rust.
abbrev pub ◌>>=◌ {ℓ κ} : {E A : Type ℓ} {B : Type κ} → Reply E A → (A → Reply E B) → Reply E B
done a >>= next = next a
fail e >>= next = fail e
