-- ===== src/Imap/Cursor/RoundTrip.antt =====
-- Cursors are read back as they were printed, and the cache accepts them.
use quick_mail.Prelude.{◌^◌, ◌<◌, ◌≡◌, refl}
use quick_mail.Codec.Decimal.{show_u64, parse_u64-show_u64, all_digits-show_u64}
use quick_mail.Codec.Split.{split_once_colon-append, all_digits-no_colon}
use quick_mail.Imap.Cursor.{
  UidCursor, parse_cursor, show_cursor, cursor_of_parts, cursor_of_numbers,
}

-- The text of a cursor of two u64 numbers is read as exactly these numbers, and is accepted if and
-- only if they pass the tests of `UidCursor::parse`.
pub parse_cursor-show_cursor :
    (cursor : UidCursor)
    → cursor.uid_validity < 2 ^ 64
    → cursor.last_uid < 2 ^ 64
    → parse_cursor (show_cursor cursor) ≡ cursor_of_numbers cursor.uid_validity cursor.last_uid
unfolding parse_cursor show_cursor cursor_of_parts
parse_cursor-show_cursor cursor hv hu =
    let validity = show_u64 cursor.uid_validity in
    rw
      (
        parse_cursor,
        split_once_colon-append validity (show_u64 cursor.last_uid)
            (all_digits-no_colon validity (all_digits-show_u64 cursor.uid_validity hv)),
        cursor_of_parts,
        parse_u64-show_u64 cursor.uid_validity hv,
        parse_u64-show_u64 cursor.last_uid hu,
      )
      refl
