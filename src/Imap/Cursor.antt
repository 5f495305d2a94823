-- ===== src/Imap/Cursor.antt =====
-- `UidCursor`: how far a mailbox has been read, `validity:last_uid`.
pub mod RoundTrip
pub mod Accepted
use Prim.Native.String.{◌++◌}
use quick_mail.Prelude.{
  ℕ, ◌^◌, ◌-◌, ◌<◌, String, Bool, true, false, not, ◌||◌, Option, none, some, ◌≡◌, refl, arith, ltb,
  nat_beq, if◌then◌else◌,
}
use quick_mail.Codec.Decimal.{show_u64, parse_u64}
use quick_mail.Codec.Split.{split_once_colon}
use quick_mail.Imap.Error.{Reply, done, fail, ImapError, invalid_cursor}

pub record SelectedMailbox : Type 0 where
  pub uid_validity : ℕ
  pub uid_next : ℕ
  pub highest_mod_sequence : Option ℕ

pub record UidCursor : Type 0 where
  pub uid_validity : ℕ
  pub last_uid : ℕ

-- `u32::MAX`.
abbrev pub max_u32 : ℕ
max_u32 = 2 ^ 32 - 1

unfoldable pub cursor_of_numbers : ℕ → ℕ → Reply ImapError UidCursor
cursor_of_numbers validity last =
    if nat_beq validity 0 || (ltb max_u32 validity || ltb max_u32 last)
    then fail invalid_cursor
    else done (record { uid_validity = validity; last_uid = last })

unfoldable pub cursor_of_parts : String → String → Reply ImapError UidCursor
unfolding parse_u64 cursor_of_numbers
cursor_of_parts validity last = elim (parse_u64 validity) [
  | none ↦ fail invalid_cursor
  | some v ↦ elim (parse_u64 last) [ none ↦ fail invalid_cursor | some u ↦ cursor_of_numbers v u ]
]

unfoldable pub parse_cursor : String → Reply ImapError UidCursor
unfolding split_once_colon cursor_of_parts
parse_cursor value = elim (split_once_colon value) [
  | none ↦ fail invalid_cursor
  | some (validity, last) ↦ cursor_of_parts validity last
]

unfoldable pub show_cursor : UidCursor → String
unfolding show_u64
show_cursor cursor = show_u64 cursor.uid_validity ++ (":" ++ show_u64 cursor.last_uid)

pub record UidSyncPlan : Type 0 where
  pub after_uid : Option ℕ
  pub through_uid : ℕ
  pub reset : Bool

unfoldable pub uid_sync_plan : Option UidCursor → SelectedMailbox → UidSyncPlan
uid_sync_plan none selected = record {
  after_uid = none;
  through_uid = selected.uid_next - 1;
  reset = false;
}
uid_sync_plan (some cursor) selected =
    let same = nat_beq cursor.uid_validity selected.uid_validity in
    record {
      after_uid = if same then some cursor.last_uid else none;
      through_uid = selected.uid_next - 1;
      reset = not same;
    }
