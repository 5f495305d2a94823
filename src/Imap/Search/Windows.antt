-- ===== src/Imap/Search/Windows.antt =====
-- What the windows of a first synchronisation cover.
use Prim.Native.Nat.{max}
use quick_mail.Prelude.{
  ℕ, zero, suc, ◌+◌, ◌-◌, ◌*◌, ◌≤◌, ◌<◌, Bool, ◌&&◌, List, ◌≡◌, arith, inl, inr, Bool-cases, any,
  All, ltb, leb, nat_beq, length,
}
use quick_mail.Imap.Cursor.{max_u32}
use quick_mail.Imap.Error.{done}
use quick_mail.Imap.Search.{search_span, windows_from, recent_uid_search_windows}

-- Whether some window holds the UID.
abbrev pub is_covered : ℕ → List (ℕ × ℕ) → Bool
is_covered u windows = any (λ (first, last). leb first u && leb u last) windows

-- What the windows of so many rounds cover: the newest `rounds * 4096` UIDs.
covered-windows_from :
    (u rounds last_uid : ℕ)
    → 0 < last_uid
    → is_covered u (windows_from rounds last_uid)
      ≡ (ltb 0 u && (leb u last_uid && ltb last_uid (u + rounds * 4096)))
unfolding windows_from
covered-windows_from u zero last_uid pos = ground arith
covered-windows_from u (suc rounds) last_uid pos =
    ground (arith, covered-windows_from u rounds (max (last_uid - (search_span - 1)) 1 - 1))

-- At least one UID, and at most 4096.
abbrev pub IsWindow : ℕ × ℕ → Type 0
IsWindow (first, last) = (0 < first) × (first ≤ last) × (last < first + 4096)

windows_from-IsWindow :
    (rounds last_uid : ℕ) → 0 < last_uid → All IsWindow (windows_from rounds last_uid)
unfolding windows_from
windows_from-IsWindow zero last_uid pos = tt
windows_from-IsWindow (suc rounds) last_uid pos =
    let first_uid = max (last_uid - (search_span - 1)) 1 in
    let window : IsWindow (first_uid, last_uid) = (omega arith, omega arith, omega arith) in
    elim (Bool-cases (nat_beq first_uid 1)) [
      | inl e ↦ rw (e) (window, tt)
      | inr e ↦ rw (e) (window, windows_from-IsWindow rounds (first_uid - 1) (ground arith))
    ]

length-windows_from-le : (rounds last_uid : ℕ) → length (windows_from rounds last_uid) ≤ rounds
unfolding windows_from
length-windows_from-le zero last_uid = omega arith
length-windows_from-le (suc rounds) last_uid =
    let first_uid = max (last_uid - (search_span - 1)) 1 in
    ground (arith, length-windows_from-le rounds (first_uid - 1))

-- A first synchronisation up to a UID of 32 bits searches at most sixteen windows, none of them
-- wider than 4096 UIDs, and they cover exactly the newest 65536 UIDs, with no gap.
pub recent_uid_search_windows-covers :
    (through_uid : ℕ)
    → 0 < through_uid
    → through_uid ≤ max_u32
    → (windows : List (ℕ × ℕ)) × (recent_uid_search_windows through_uid ≡ done windows)
      × (length windows ≤ 16)
      × All IsWindow windows
      × ((u : ℕ)
          → is_covered u windows ≡ (ltb 0 u && (leb u through_uid && ltb through_uid (u + 65536))))
unfolding recent_uid_search_windows
recent_uid_search_windows-covers through_uid pos small = (
  windows_from 16 through_uid,
  ground arith,
  length-windows_from-le 16 through_uid,
  windows_from-IsWindow 16 through_uid pos,
  (λ u. covered-windows_from u 16 through_uid pos),
)
