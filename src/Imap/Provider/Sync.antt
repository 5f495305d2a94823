-- ===== src/Imap/Provider/Sync.antt =====
-- Every page that `sync_mailbox` returns passes the checks of the cache.
use Prim.Native.Char.{code}
use text.Mathlib.TextLemmas.{nil≢cons}
use quick_mail.Prelude.{
  ℕ, ◌^◌, ◌<◌, String, Bool, true, false, ◌&&◌, ◌||◌, some, List, [], ◌∷◌, map, any, all, All, ◌≡◌,
  refl, ap, sym, ◌∙◌, arith, inl, inr, Bool-cases, Option-cases, some_inj, and_true, nat_beq,
  nat_beq_iff, ◌==◌, string_eq, eq_of_beq, beq_refl,
}
use quick_mail.Imap.Provider.{
  ImapEnvelope, Libraries, imap_message_summary, dedup_texts_after, dedup_texts, text_set,
  missing_ids, missing_reconciled_message_ids, native_of, reconciled,
}
use quick_mail.Imap.StableId.{StableImapId, show_stable_id, provider_native_id}
use quick_mail.Imap.StableId.RoundTrip.{
  parse_stable_id-show_stable_id, provider_native_id-normalized_message_id,
}
use quick_mail.Models.{MessageSummary}
use quick_mail.Models.Ids.{
  strip_prefix, normalized_message_id, is_normalized_message_id, is_id_suffix,
}
use quick_mail.Storage.Order.{text_ltb}
use quick_mail.Storage.Order.Sorting.{order_by-All}
use quick_mail.Storage.SyncPage.{message_is_local, removal_is_valid}

pub all_of_All {ℓ} :
    {A : Type ℓ} (p : A → Bool) (xs : List A) → All (λ x. p x ≡ true) xs → all p xs ≡ true
all_of_All p [] h = refl
all_of_All p (x ∷ xs) h = rw (h.0, all_of_All p xs h.1) refl

-- The id of a message of IMAP, as the daemon has it.
abbrev pub id_of : String → String → ℕ → ℕ → String
id_of account_id mailbox validity uid =
    normalized_message_id account_id
      (show_stable_id (record { mailbox = mailbox; uid_validity = validity; uid = uid }))

native_of-normalized :
    (account_id mailbox : String) (validity uid : ℕ)
    → validity < 2 ^ 64
    → 0 < uid
    → uid < 2 ^ 64
    → native_of account_id (id_of account_id mailbox validity uid)
      ≡ some (record { mailbox = mailbox; uid_validity = validity; uid = uid })
unfolding native_of
native_of-normalized account_id mailbox validity uid hv pos hu =
    let id : StableImapId = record { mailbox = mailbox; uid_validity = validity; uid = uid } in
    rw
      (
        native_of,
        provider_native_id-normalized_message_id account_id id,
        parse_stable_id-show_stable_id id hv pos hu,
      )
      refl

suffix_of_native :
    (suffix native rest : String)
    → strip_prefix ":" suffix ≡ some native
    → strip_prefix "imap:" native ≡ some rest
    → is_id_suffix suffix ≡ true
suffix_of_native String.[] native rest h k = cc
suffix_of_native (String.◌∷◌ c String.[]) String.[] rest h k = cc
suffix_of_native (String.◌∷◌ c String.[]) (String.◌∷◌ d native) rest h k =
    elim (Bool-cases (nat_beq (code ":") (code c))) [
      | inl e ↦ absurd (nil≢cons (some_inj (rw (e) at h)))
      | inr e ↦ let h' = rw (e) at h in cc
    ]
suffix_of_native (String.◌∷◌ c (String.◌∷◌ d s)) native rest h k = ground (arith)

-- An id that leads to a message of IMAP is a normalized one.
normalized_of_native :
    (account_id message_id : String) (id : StableImapId)
    → native_of account_id message_id ≡ some id
    → is_normalized_message_id account_id message_id ≡ true
unfolding native_of provider_native_id is_normalized_message_id
normalized_of_native account_id message_id id h =
    elim (Option-cases (strip_prefix account_id message_id)) [
      | inl e ↦ let h' = rw (native_of, provider_native_id, e) at h in cc
      | inr (suffix, e) ↦ elim (Option-cases (strip_prefix ":" suffix)) [
        | inl e' ↦ let h' = rw (native_of, provider_native_id, e, e') at h in cc
        | inr (native, e') ↦ elim (Option-cases (strip_prefix "imap:" native)) [
          | inl e'' ↦ let h' = rw (native_of, provider_native_id, e, e', e'') at h in cc
          | inr (rest, e'') ↦
              rw (is_normalized_message_id, e) (suffix_of_native suffix native rest e' e'')
        ]
      ]
    ]

-- An id that `reconciled` has paired with its UID.
abbrev pub Paired : String → String → ℕ → ℕ × String → Type 0
Paired account_id mailbox validity (uid, message_id) =
    native_of account_id message_id
    ≡ some (record { mailbox = mailbox; uid_validity = validity; uid = uid })

pub reconciled-Paired :
    (account_id mailbox : String) (validity : ℕ) (ids : List String)
    → All (Paired account_id mailbox validity) (reconciled account_id mailbox validity ids)
unfolding reconciled
reconciled-Paired account_id mailbox validity [] = tt
reconciled-Paired account_id mailbox validity (message_id ∷ ids) =
    let rest = reconciled-Paired account_id mailbox validity ids in
    elim (Option-cases (native_of account_id message_id)) [
      | inl e ↦ rw (reconciled, e) rest
      | inr (id, e) ↦
          elim (Bool-cases (id.mailbox == mailbox && nat_beq id.uid_validity validity)) [
            | inl same ↦
                let (here, now) =
                  and_true (id.mailbox == mailbox) (nat_beq id.uid_validity validity) same in
                let m = eq_of_beq id.mailbox mailbox here in
                let v = (nat_beq_iff id.uid_validity validity).0 now in
                rw (reconciled, e, same)
                  (
                    (e ∙ (λ i. some (record { mailbox = m i; uid_validity = v i; uid = id.uid }))),
                    rest,
                  )
            | inr other ↦ rw (reconciled, e, other) rest
          ]
    ]

-- The envelopes of a transport have UIDs: positive, and a u64.
abbrev pub HasUid : ImapEnvelope → Type 0
HasUid e = (0 < e.uid) × (e.uid < 2 ^ 64)

dedup_texts_after-All :
    (P : String → Type 0) (t : String) (texts : List String)
    → All P texts
    → All P (dedup_texts_after t texts)
unfolding dedup_texts_after
dedup_texts_after-All P t [] h = tt
dedup_texts_after-All P t (u ∷ texts) h = elim (Bool-cases (t == u)) [
  | inl e ↦ rw (e) (dedup_texts_after-All P u texts h.1)
  | inr e ↦ rw (e) (h.0, dedup_texts_after-All P u texts h.1)
]

dedup_texts-All :
    (P : String → Type 0) (texts : List String) → All P texts → All P (dedup_texts texts)
unfolding dedup_texts
dedup_texts-All P [] h = tt
dedup_texts-All P (t ∷ texts) h = (h.0, dedup_texts_after-All P t texts h.1)

text_set-All : (P : String → Type 0) (texts : List String) → All P texts → All P (text_set texts)
unfolding text_set
text_set-All P texts h = dedup_texts-All P _ (order_by-All text_ltb P texts h)

or_is_false : (a b : Bool) → (a || b) ≡ false → (a ≡ false) × (b ≡ false)
or_is_false a b h = (ground arith, ground arith)

module _ {Json : Type 0} (libraries : Libraries Json) (account_id mailbox : String) (validity : ℕ)
    (fits : validity < 2 ^ 64) where
  abbrev pub summaries : List ImapEnvelope → List (MessageSummary Json)
  summaries envelopes = map (imap_message_summary libraries account_id mailbox validity) envelopes

  other_id :
      (uid uid' : ℕ) (message_id : String)
      → Paired account_id mailbox validity (uid, message_id)
      → (0 < uid') × (uid' < 2 ^ 64)
      → nat_beq uid uid' ≡ false
      → (id_of account_id mailbox validity uid' == message_id) ≡ false
  other_id uid uid' message_id paired h differ =
      let id = id_of account_id mailbox validity uid' in
      elim (Bool-cases (id == message_id)) [
        | inl e ↦
            let one = native_of-normalized account_id mailbox validity uid' fits h.0 h.1 in
            let both = sym one ∙ (ap (native_of account_id) (eq_of_beq id message_id e) ∙ paired) in
            let same : uid' ≡ uid = ap (λ (x : StableImapId). x.uid) (some_inj both) in ground arith
        | inr e ↦ e
      ]

  -- An id whose UID the server did not return is not among the messages that it returned.
  not_returned :
      (uid : ℕ) (message_id : String) (envelopes : List ImapEnvelope)
      → Paired account_id mailbox validity (uid, message_id)
      → All HasUid envelopes
      → any (nat_beq uid) (map (λ e. e.uid) envelopes) ≡ false
      → any (λ m. m.id == message_id) (summaries envelopes) ≡ false
  unfolding imap_message_summary
  not_returned uid message_id [] paired h absent = refl
  not_returned uid message_id (e ∷ envelopes) paired h absent =
      let (here, later) =
        or_is_false (nat_beq uid e.uid) (any (nat_beq uid) (map (λ e. e.uid) envelopes)) absent in
      rw
        (
          other_id uid e.uid message_id paired h.0 here,
          not_returned uid message_id envelopes paired h.1 later,
        )
        refl

  message_is_local-summary :
      (e : ImapEnvelope)
      → HasUid e
      → message_is_local account_id mailbox
          (imap_message_summary libraries account_id mailbox validity e)
        ≡ true
  unfolding message_is_local imap_message_summary
  message_is_local-summary e h =
      let native = native_of-normalized account_id mailbox validity e.uid fits h.0 h.1 in
      rw
        (
          message_is_local,
          beq_refl account_id,
          beq_refl mailbox,
          normalized_of_native account_id (id_of account_id mailbox validity e.uid) _ native,
        )
        refl

  -- What the cache asks of each message.
  pub all-message_is_local :
      (envelopes : List ImapEnvelope)
      → All HasUid envelopes
      → all (message_is_local account_id mailbox) (summaries envelopes) ≡ true
  all-message_is_local [] h = refl
  all-message_is_local (e ∷ envelopes) h =
      rw (message_is_local-summary e h.0, all-message_is_local envelopes h.1) refl

  missing_ids-valid :
      (requested : List (ℕ × String)) (envelopes : List ImapEnvelope)
      → All (Paired account_id mailbox validity) requested
      → All HasUid envelopes
      → All
          (λ id. removal_is_valid account_id (summaries envelopes) id ≡ true)
          (missing_ids requested (map (λ e. e.uid) envelopes))
  unfolding removal_is_valid
  missing_ids-valid [] envelopes paired h = tt
  missing_ids-valid ((uid, message_id) ∷ requested) envelopes paired h =
      let rest = missing_ids-valid requested envelopes paired.1 h in
      elim (Bool-cases (any (nat_beq uid) (map (λ e. e.uid) envelopes))) [
        | inl present ↦ rw (present) rest
        | inr absent ↦ rw (absent) (
          (rw
              (
                removal_is_valid,
                normalized_of_native account_id message_id _ paired.0,
                not_returned uid message_id envelopes paired.0 h absent,
              )
              refl),
          rest,
        )
      ]

  -- What the cache asks of each removal.
  pub all-removal_is_valid :
      (requested : List (ℕ × String)) (envelopes : List ImapEnvelope)
      → All (Paired account_id mailbox validity) requested
      → All HasUid envelopes
      → all
          (removal_is_valid account_id (summaries envelopes))
          (missing_reconciled_message_ids requested (map (λ e. e.uid) envelopes))
        ≡ true
  unfolding missing_reconciled_message_ids
  all-removal_is_valid requested envelopes paired h = all_of_All _ _ (
      text_set-All (λ id. removal_is_valid account_id (summaries envelopes) id ≡ true) _
        (missing_ids-valid requested envelopes paired h))
