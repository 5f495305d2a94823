-- ===== src/Daemon/Files/Safe.antt =====
-- What the names of attachments cannot be.
use Prim.Native.Char.{Char}
use quick_mail.Prelude.{
  ℕ, zero, suc, String, Bool, true, false, ◌≡◌, refl, inl, inr, Bool-cases, and_true,
}
use quick_mail.Codec.Chars.{all_chars, is_blank, is_whitespace}
use quick_mail.Daemon.Files.{
  is_name_char, filter_chars, take_chars, or_attachment, file_name, safe_attachment_name,
}
use quick_mail.Imap.Threads.{is_control}

filter_chars_all : (p : Char → Bool) (s : String) → all_chars p (filter_chars p s) ≡ true
unfolding filter_chars
filter_chars_all p String.[] = refl
filter_chars_all p (String.◌∷◌ c s) = elim (Bool-cases (p c)) [
  | inl e ↦ rw (filter_chars, e) (rw (e) (filter_chars_all p s))
  | inr e ↦ rw (filter_chars, e) (filter_chars_all p s)
]

take_chars_keeps :
    (p : Char → Bool) (n : ℕ) (s : String)
    → all_chars p s ≡ true
    → all_chars p (take_chars n s) ≡ true
unfolding take_chars
take_chars_keeps p zero s h = refl
take_chars_keeps p (suc n) String.[] h = refl
take_chars_keeps p (suc n) (String.◌∷◌ c s) h =
    let (here, later) = and_true (p c) (all_chars p s) h in rw (here) (take_chars_keeps p n s later)

attachment_clean : (all_chars is_name_char "attachment" ≡ true) × (is_blank "attachment" ≡ false)
unfolding is_control is_blank is_whitespace
attachment_clean = (refl, refl)

-- Whatever a sender calls an attachment, its name in the daemon has no slash, no backslash and no
-- control character, and is not blank.
pub safe_attachment_name_clean :
    (filename : String)
    → (all_chars is_name_char (safe_attachment_name filename) ≡ true)
      × (is_blank (safe_attachment_name filename) ≡ false)
unfolding safe_attachment_name
safe_attachment_name_clean filename =
    let kept = filter_chars is_name_char (or_attachment (file_name filename)) in
    elim (Bool-cases (is_blank (take_chars 160 kept))) [
      | inl blank ↦ rw (safe_attachment_name, blank) attachment_clean
      | inr full ↦
          rw (safe_attachment_name, full)
            (take_chars_keeps is_name_char 160 kept (filter_chars_all is_name_char _), full)
    ]
