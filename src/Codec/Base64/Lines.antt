-- ===== src/Codec/Base64/Lines.antt =====
-- Line breaks and padding in base64.
use quick_mail.Prelude.{
  ℕ, zero, suc, some, List, [], ◌∷◌, ◌≡◌, refl, ap, ◌∙◌, arith, inl, inr, Bool-cases, All, nat_beq,
}
use quick_mail.Codec.Base64.{
  mime_table, group, sextet, padded_base64, break_lines, wrap_base64, space, symbol, onto_output,
  on_symbol, decode_from, decode_base64,
}
use quick_mail.Codec.Base64.RoundTrip.{
  symbol-mime_table, two_symbols, three_symbols, four_symbols, sextet_lt,
}
use quick_mail.Codec.Utf8.{IsByte}

-- Two texts that decode alike, in every state of the loop, do so behind the same byte.
same_behind :
    (byte : ℕ) (s t : List ℕ)
    → ((acc bits : ℕ) → decode_from acc bits s ≡ decode_from acc bits t)
    → (acc bits : ℕ) → decode_from acc bits (byte ∷ s) ≡ decode_from acc bits (byte ∷ t)
unfolding decode_from
same_behind byte s t alike acc bits = λ i. on_symbol (symbol byte) acc bits (λ a b. alike a b i)

-- A byte that is white space changes nothing.
skip_space :
    (byte acc bits : ℕ) (s : List ℕ)
    → symbol byte ≡ space
    → decode_from acc bits (byte ∷ s) ≡ decode_from acc bits s
unfolding decode_from
skip_space byte acc bits s h = rw (decode_from, h) refl

skip_break :
    (acc bits : ℕ) (s : List ℕ) → decode_from acc bits (13 ∷ 10 ∷ s) ≡ decode_from acc bits s
unfolding symbol
skip_break acc bits s = skip_space 13 acc bits (10 ∷ s) refl ∙ skip_space 10 acc bits s refl

-- Breaking a text into lines does not change what it decodes to.
decode-break_lines :
    (room : ℕ) (text : List ℕ) (acc bits : ℕ)
    → decode_from acc bits (break_lines room text) ≡ decode_from acc bits text
unfolding break_lines
decode-break_lines room [] acc bits = elim (Bool-cases (nat_beq room 76)) [
  | inl e ↦ rw (break_lines, e) refl
  | inr e ↦ rw (break_lines, e) (skip_break acc bits [])
]
decode-break_lines zero (c ∷ text) acc bits =
    skip_break acc bits (c ∷ break_lines 75 text)
    ∙ same_behind c (break_lines 75 text) text (decode-break_lines 75 text) acc bits
decode-break_lines (suc zero) (c ∷ text) acc bits =
    same_behind c (13 ∷ 10 ∷ break_lines 76 text) text
      (λ a b. skip_break a b (break_lines 76 text) ∙ decode-break_lines 76 text a b) acc bits
decode-break_lines (suc (suc room)) (c ∷ text) acc bits =
    same_behind c (break_lines (suc room) text) text (decode-break_lines (suc room) text) acc bits

padding_ends : (acc bits : ℕ) (s : List ℕ) → decode_from acc bits (b'=' ∷ s) ≡ some []
unfolding decode_from symbol
padding_ends acc bits s = refl

decode-padded_base64 :
    (input : List ℕ) → All IsByte input → decode_from 0 0 (padded_base64 input) ≡ some input
unfolding padded_base64 decode_from
decode-padded_base64 [] h = refl
decode-padded_base64 (a ∷ []) h =
    let n = group a 0 0 in
    two_symbols a 0 0 (mime_table (sextet n 3)) (mime_table (sextet n 2)) (b'=' ∷ b'=' ∷ []) h.0
      (omega arith) (omega arith) (symbol-mime_table (sextet n 3) (sextet_lt n 3))
      (symbol-mime_table (sextet n 2) (sextet_lt n 2))
    ∙ ap (onto_output a) (padding_ends 0 4 (b'=' ∷ []))
decode-padded_base64 (a ∷ b ∷ []) h =
    let n = group a b 0 in
    three_symbols a b 0 (mime_table (sextet n 3)) (mime_table (sextet n 2))
      (mime_table (sextet n 1)) (b'=' ∷ []) h.0 h.1.0 (omega arith)
      (symbol-mime_table (sextet n 3) (sextet_lt n 3))
      (symbol-mime_table (sextet n 2) (sextet_lt n 2))
      (symbol-mime_table (sextet n 1) (sextet_lt n 1))
    ∙ ap (λ o. onto_output a (onto_output b o)) (padding_ends 0 2 [])
decode-padded_base64 (a ∷ b ∷ c ∷ input) h =
    let n = group a b c in
    rw
      (
        four_symbols a b c (mime_table (sextet n 3)) (mime_table (sextet n 2))
            (mime_table (sextet n 1)) (mime_table (sextet n 0)) (padded_base64 input) h.0 h.1.0
            h.1.1.0 (symbol-mime_table (sextet n 3) (sextet_lt n 3))
            (symbol-mime_table (sextet n 2) (sextet_lt n 2))
            (symbol-mime_table (sextet n 1) (sextet_lt n 1))
            (symbol-mime_table (sextet n 0) (sextet_lt n 0)),
        decode-padded_base64 input h.1.1.1,
      )
      refl

-- A body that the daemon sends in lines of base64 is decoded to the same bytes by the parser of
-- messages, with its line breaks and its padding.
pub decode_base64-wrap_base64 :
    (input : List ℕ) → All IsByte input → decode_base64 (wrap_base64 input) ≡ some input
unfolding decode_base64 wrap_base64
decode_base64-wrap_base64 input h =
    decode-break_lines 76 (padded_base64 input) 0 0 ∙ decode-padded_base64 input h
