-- ===== src/Imap/Smtp/Data.antt =====
-- What a server reads from the data of `dot_stuff`.
use quick_mail.Prelude.{
  ℕ, Bool, true, false, not, subst, ◌&&◌, ◌||◌, List, [], ◌∷◌, ◌++◌, All, ◌≡◌, refl, ap, sym, ◌∙◌,
  arith, inl, inr, Bool-cases, and_true, nat_beq, if◌then◌else◌,
}
use quick_mail.Imap.Smtp.{stuff, drop_breaks, reverse_onto, dot_stuff}

-- The rule of RFC 5321 for the reader: a line ends in CRLF, and a dot that starts a line goes. The
-- flags say that a line starts here, and that the byte before was CR.
unfoldable pub unstuff : Bool → Bool → List ℕ → List ℕ
unstuff line_start after_cr [] = []
unstuff line_start after_cr (byte ∷ text) =
    let rest = unstuff false false text in
    let more = byte ∷ unstuff (after_cr && nat_beq byte 10) (nat_beq byte 13) text in
    if line_start && nat_beq byte b'.' then rest else more

-- Every LF of the message follows a CR.
unfoldable pub has_crlf_lines : Bool → List ℕ → Bool
has_crlf_lines after_cr [] = true
has_crlf_lines after_cr (byte ∷ message) =
    (not (nat_beq byte 10) || after_cr) && has_crlf_lines (nat_beq byte 13) message

abbrev pub IsBreak : ℕ → Type 0
IsBreak byte = (nat_beq byte 10 || nat_beq byte 13) ≡ true

line_end : (a b : Bool) → (not a || b) ≡ true → (b && a) ≡ a
line_end a b h = ground (arith, h)

stuff_dot :
    (line_start : Bool) (byte : ℕ) (message : List ℕ)
    → (line_start && nat_beq byte b'.') ≡ true
    → stuff line_start (byte ∷ message) ≡ b'.' ∷ byte ∷ stuff false message
unfolding stuff
stuff_dot line_start byte message h =
    let no_lf : nat_beq byte 10 ≡ false = ground (arith, h) in rw (stuff, h, no_lf) refl

stuff_plain :
    (line_start : Bool) (byte : ℕ) (message : List ℕ)
    → (line_start && nat_beq byte b'.') ≡ false
    → stuff line_start (byte ∷ message) ≡ byte ∷ stuff (nat_beq byte 10) message
unfolding stuff
stuff_plain line_start byte message h = rw (stuff, h) refl

unstuff_dot :
    (line_start after_cr : Bool) (byte : ℕ) (text : List ℕ)
    → (line_start && nat_beq byte b'.') ≡ true
    → unstuff line_start after_cr (b'.' ∷ byte ∷ text) ≡ byte ∷ unstuff false false text
unfolding unstuff
unstuff_dot line_start after_cr byte text h =
    let start : line_start ≡ true = ground (arith, h) in
    let no_cr : nat_beq byte 13 ≡ false = ground (arith, h) in rw (unstuff, start, no_cr) refl

unstuff_plain :
    (line_start after_cr : Bool) (byte : ℕ) (text : List ℕ)
    → (line_start && nat_beq byte b'.') ≡ false
    → (not (nat_beq byte 10) || after_cr) ≡ true
    → unstuff line_start after_cr (byte ∷ text)
      ≡ byte ∷ unstuff (nat_beq byte 10) (nat_beq byte 13) text
unfolding unstuff
unstuff_plain line_start after_cr byte text h k =
    rw (unstuff, h, line_end (nat_beq byte 10) after_cr k) refl

no_break :
    (line_start : Bool) (byte : ℕ)
    → (line_start && nat_beq byte b'.') ≡ true
    → (nat_beq byte 10 ≡ false) × (nat_beq byte 13 ≡ false)
no_break line_start byte h = (ground (arith, h), ground (arith, h))

unstuff-stuff :
    (line_start after_cr : Bool) (message : List ℕ)
    → has_crlf_lines after_cr message ≡ true
    → unstuff line_start after_cr (stuff line_start message) ≡ message
unfolding stuff unstuff has_crlf_lines
unstuff-stuff line_start after_cr [] h = refl
unstuff-stuff line_start after_cr (byte ∷ message) h =
    let (here, later) = and_true _ (has_crlf_lines (nat_beq byte 13) message) h in
    elim (Bool-cases (line_start && nat_beq byte b'.')) [
      | inl dot ↦
          let (no_lf, no_cr) = no_break line_start byte dot in
          ap (unstuff line_start after_cr) (stuff_dot line_start byte message dot)
          ∙ (unstuff_dot line_start after_cr byte (stuff false message) dot
              ∙ ap (λ t. byte ∷ t)
                  (unstuff-stuff false false message
                    (subst (λ b. has_crlf_lines b message ≡ true) no_cr later)))
      | inr plain ↦
          ap (unstuff line_start after_cr) (stuff_plain line_start byte message plain)
          ∙ (unstuff_plain line_start after_cr byte (stuff (nat_beq byte 10) message) plain here
              ∙ ap (λ t. byte ∷ t)
                  (unstuff-stuff (nat_beq byte 10) (nat_beq byte 13) message later))
    ]

reverse_onto-append :
    (xs ys out : List ℕ) → reverse_onto (xs ++ ys) out ≡ reverse_onto ys (reverse_onto xs out)
unfolding reverse_onto
reverse_onto-append [] ys out = refl
reverse_onto-append (x ∷ xs) ys out = reverse_onto-append xs ys (x ∷ out)

reverse_onto_split : (xs ys out : List ℕ) → reverse_onto xs (ys ++ out) ≡ reverse_onto xs ys ++ out
unfolding reverse_onto
reverse_onto_split [] ys out = refl
reverse_onto_split (x ∷ xs) ys out = reverse_onto_split xs (x ∷ ys) out

reverse_onto-All :
    (P : ℕ → Type 0) (xs out : List ℕ) → All P xs → All P out → All P (reverse_onto xs out)
unfolding reverse_onto
reverse_onto-All P [] out h k = k
reverse_onto-All P (x ∷ xs) out h k = reverse_onto-All P xs (x ∷ out) h.1 (h.0, k)

reverse_twice : (xs out : List ℕ) → reverse_onto (reverse_onto xs out) [] ≡ reverse_onto out xs
unfolding reverse_onto
reverse_twice [] out = refl
reverse_twice (x ∷ xs) out = reverse_twice xs (x ∷ out)

-- What the loop drops from the end are line breaks.
drop_breaks_split :
    (after_lf : Bool) (xs : List ℕ)
    → (dropped : List ℕ) × (xs ≡ dropped ++ drop_breaks after_lf xs) × All IsBreak dropped
unfolding drop_breaks
drop_breaks_split after_lf [] = ([], refl, tt)
drop_breaks_split after_lf (byte ∷ xs) =
    elim (Bool-cases (nat_beq byte 10 || after_lf && nat_beq byte 13)) [
      | inl e ↦
          let (dropped, split, breaks) = drop_breaks_split (nat_beq byte 10) xs in
          (byte ∷ dropped, (rw (e) (ap (λ t. byte ∷ t) split)), ((ground arith), breaks))
      | inr e ↦ ([], (rw (e) refl), tt)
    ]

-- A message whose lines end in CRLF is read by a server that takes the doubled dots away, except for
-- line breaks at its end: the data that is sent, with those breaks behind it, unstuffs to the
-- message, byte for byte.
pub unstuff-dot_stuff :
    (message : List ℕ)
    → has_crlf_lines false message ≡ true
    → (breaks : List ℕ) × All IsBreak breaks
      × (unstuff true false (dot_stuff message ++ breaks) ≡ message)
unfolding dot_stuff
unstuff-dot_stuff message lines =
    let stuffed = stuff true message in
    let (dropped, split, are_breaks) = drop_breaks_split false (reverse_onto stuffed []) in
    let kept = drop_breaks false (reverse_onto stuffed []) in
    let breaks = reverse_onto dropped [] in
    let whole : stuffed ≡ reverse_onto kept [] ++ breaks =
      sym (reverse_twice stuffed [])
      ∙ (ap (λ t. reverse_onto t []) split
          ∙ (reverse_onto-append dropped kept [] ∙ reverse_onto_split kept [] breaks)) in
    (
      breaks,
      reverse_onto-All IsBreak dropped [] are_breaks tt,
      (ap (unstuff true false) (sym whole) ∙ unstuff-stuff true false message lines),
    )
