-- ===== src/Imap/Provider/Actions/Ids.antt =====
-- The ids of a mail action that reaches the server.
use quick_mail.Prelude.{
  ℕ, String, Bool, true, false, Option, none, some, List, [], ◌∷◌, map, ◌≡◌, refl, ap, sym, ◌∙◌,
  subst, arith, inl, inr, Bool-cases, string_eq, eq_of_beq, nat_beq, nat_beq_iff, ◌⊎◌,
  if◌then◌else◌, some_inj,
}
use quick_mail.Imap.Cursor.{SelectedMailbox}
use quick_mail.Imap.Error.{Reply, done, fail, ok_or}
use quick_mail.Imap.Provider.{ImapTransport, provide}
use quick_mail.Imap.Provider.Accepted.{provided-eq-done}
use quick_mail.Imap.Provider.Actions.{
  checked_id, Known, differs, onto_uids, common_mailbox, validate_ids, move_to, store_flag,
}
use quick_mail.Imap.Session.{Step, pure, lift, bind-eq-done}
use quick_mail.Imap.StableId.{StableImapId}
use quick_mail.Provider.{ProviderError}

abbrev id_at : String → ℕ → ℕ → Reply ProviderError StableImapId
id_at mailbox validity uid = done (record { mailbox = mailbox; uid_validity = validity; uid = uid })

Reply-cases : {E A : Type 0} (r : Reply E A) → ((e : E) × (r ≡ fail e)) ⊎ ((a : A) × (r ≡ done a))
Reply-cases (done a) = inr (a, refl)
Reply-cases (fail e) = inl (e, refl)

onto_uids-eq-done :
    (uid : ℕ) (r : Reply ProviderError (Known × List ℕ)) {known : Known} {uids : List ℕ}
    → onto_uids uid r ≡ done (known, uids)
    → (rest : List ℕ) × (r ≡ done (known, rest)) × (uids ≡ uid ∷ rest)
onto_uids-eq-done uid (done (known, uids)) h = (uids, (cc), (cc))
onto_uids-eq-done uid (fail e) h = cc

-- One round of the loop: the id is one of the account, and not of another mailbox than before.
round_inv :
    (account_id id : String) (ids : List String) (known : Known) {found : Known} {uids : List ℕ}
    → common_mailbox account_id (id ∷ ids) known ≡ done (found, uids)
    → (parsed : StableImapId) × (rest : List ℕ) × (checked_id account_id id ≡ done parsed)
      × (differs known parsed ≡ false)
      × (common_mailbox account_id ids (some (parsed.mailbox, parsed.uid_validity))
          ≡ done (found, rest))
      × (uids ≡ parsed.uid ∷ rest)
unfolding common_mailbox
round_inv account_id id ids known h = elim (Reply-cases (checked_id account_id id)) [
  | inl (error, e) ↦ let h' = rw (common_mailbox, e) at h in cc
  | inr (parsed, e) ↦ elim (Bool-cases (differs known parsed)) [
    | inl d ↦ let h' = rw (common_mailbox, e, d) at h in cc
    | inr d ↦
        let (rest, one, two) = onto_uids-eq-done parsed.uid _ (rw (common_mailbox, e, d) at h) in
        (parsed, rest, e, d, one, two)
  ]
]

same_of_not_differs :
    (mailbox : String) (validity : ℕ) (id : StableImapId)
    → differs (some (mailbox, validity)) id ≡ false
    → (id.mailbox ≡ mailbox) × (id.uid_validity ≡ validity)
same_of_not_differs mailbox validity id h =
    (sym (eq_of_beq mailbox id.mailbox (ground arith)), ground arith)

-- The loop keeps the mailbox that the first id has set.
common_keeps :
    (account_id : String) (ids : List String) (mailbox : String) (validity : ℕ) {found : Known}
    {uids : List ℕ}
    → common_mailbox account_id ids (some (mailbox, validity)) ≡ done (found, uids)
    → (found ≡ some (mailbox, validity))
      × (map (checked_id account_id) ids ≡ map (id_at mailbox validity) uids)
unfolding common_mailbox
common_keeps account_id [] mailbox validity {found} {uids} h =
    let none_left : [] ≡ uids = cc in ((cc), ap (map (id_at mailbox validity)) none_left)
common_keeps account_id (id ∷ ids) mailbox validity {found} {uids} h =
    let (parsed, rest, e, d, later, u) = round_inv account_id id ids (some (mailbox, validity)) h in
    let (m, v) = same_of_not_differs mailbox validity parsed d in
    let (same, tail) = common_keeps account_id ids mailbox validity (
      subst (λ k. common_mailbox account_id ids (some k) ≡ done (found, rest)) (λ i. (m i, v i))
        later) in
    let head : checked_id account_id id ≡ id_at mailbox validity parsed.uid =
      e ∙ (λ i. done (record { mailbox = m i; uid_validity = v i; uid = parsed.uid })) in
    (same, (rw (u, head, tail) refl))

-- All ids are of the mailbox that the loop found.
common_ids :
    (account_id : String) (ids : List String) {mailbox : String} {validity : ℕ} {uids : List ℕ}
    → common_mailbox account_id ids none ≡ done (some (mailbox, validity), uids)
    → map (checked_id account_id) ids ≡ map (id_at mailbox validity) uids
unfolding common_mailbox
common_ids account_id [] h = cc
common_ids account_id (id ∷ ids) {mailbox} {validity} {uids} h =
    let (parsed, rest, e, d, later, u) = round_inv account_id id ids none h in
    let (same, tail) = common_keeps account_id ids parsed.mailbox parsed.uid_validity later in
    let both = some_inj same in
    let m : mailbox ≡ parsed.mailbox = ap (λ (p : String × ℕ). p.0) both in
    let v : validity ≡ parsed.uid_validity = ap (λ (p : String × ℕ). p.1) both in
    rw (m, v, u, e, tail) refl

same_uids :
    {S : Type 0} (b : Bool) (error : ProviderError) (s : S) {made out : String × List ℕ} {t : S}
    → (if◌then◌else◌ {A = Step S ProviderError (String × List ℕ)} b (pure made) (lift (fail error)))
        s
      ≡ (done out, t)
    → (b ≡ true) × (made ≡ out) × (s ≡ t)
same_uids true error s h = (refl, (cc), (cc))
same_uids false error s h = cc

lift-eq-done :
    {S E A : Type 0} (r : Reply E A) {s t : S} {a : A}
    → ◌≡◌ {A = Reply E A × S} (r, s) (done a, t)
    → (r ≡ done a) × (s ≡ t)
lift-eq-done (done a) h = ((cc), (cc))
lift-eq-done (fail e) h = cc

ok_or-eq-done : {E A : Type 0} (e : E) (o : Option A) {a : A} → ok_or e o ≡ done a → o ≡ some a
ok_or-eq-done e (some a) h = cc
ok_or-eq-done e none h = cc

module _ {S : Type 0} (account_id : String) (transport : ImapTransport S) where
  -- Each id that passes is of the account and of the one mailbox that is answered, with the numbering
  -- that the server has at that time; the UIDs are those of the ids, in their order.
  validate_ids-exact :
      (message_ids : List String) (s t : S) (mailbox : String) (uids : List ℕ)
      → validate_ids account_id transport message_ids s ≡ (done (mailbox, uids), t)
      → (selected : SelectedMailbox) × (transport.select mailbox s ≡ (done selected, t))
        × (map (checked_id account_id) message_ids
            ≡ map
                (λ uid.
                  done
                    (record { mailbox = mailbox; uid_validity = selected.uid_validity; uid = uid }))
                uids)
  unfolding validate_ids
  validate_ids-exact message_ids s t mailbox uids h =
      let (found, s1, one, h1) =
        bind-eq-done (lift (common_mailbox account_id message_ids none)) _ s h in
      let (common, stays) = lift-eq-done _ one in
      let (place, s2, two, h2) =
        bind-eq-done (lift (ok_or (ProviderError.other "message list is empty") found.0)) _ s1 h1 in
      let (known, stays') = lift-eq-done _ two in
      let (selected, s3, three, h3) = bind-eq-done (provide (transport.select place.0)) _ s2 h2 in
      let (same, made, ends) = same_uids (nat_beq selected.uid_validity place.1) _ s3 h3 in
      let validity : selected.uid_validity ≡ place.1 =
        (nat_beq_iff selected.uid_validity place.1).0 same in
      let back = sym validity in
      let here : place.0 ≡ mailbox = ap (λ (p : String × List ℕ). p.0) made in
      let theirs : found.1 ≡ uids = ap (λ (p : String × List ℕ). p.1) made in
      let start : s2 ≡ s = sym (stays ∙ stays') in
      let ids =
        common_ids account_id message_ids
          (common ∙ (λ i. done (ok_or-eq-done _ found.0 known i, found.1))) in
      (
        selected,
        subst (λ n. transport.select n s ≡ (done selected, t)) here
            (subst (λ u. transport.select place.0 u ≡ (done selected, t)) start
              (subst (λ u. transport.select place.0 s2 ≡ (done selected, u)) ends
                (provided-eq-done _ three))),
        ids ∙ (λ i. map (id_at (here i) (back i)) (theirs i)),
      )

  -- What the ids of an action have passed: they name these UIDs of this mailbox, in the numbering
  -- that the server answers when the mailbox is selected, after which it is in the last state.
  abbrev pub Checked : List String → S → String → List ℕ → S → Type 0
  Checked message_ids s mailbox uids t =
      (selected : SelectedMailbox) × (transport.select mailbox s ≡ (done selected, t))
      × (map (checked_id account_id) message_ids ≡ map (id_at mailbox selected.uid_validity) uids)

  -- When a move has succeeded, each id of it is of the account and of one mailbox, with the numbering
  -- that the server had when the mailbox was selected, and what was then asked of the transport is
  -- exactly to move the UIDs of the ids, in their order, from that mailbox to the destination.
  pub move_to-exact :
      (message_ids : List String) (destination : String) (s t : S)
      → move_to account_id transport message_ids destination s ≡ (done tt, t)
      → (mailbox : String) × (uids : List ℕ) × (there : S) × Checked message_ids s mailbox uids
          there
        × (transport.move_uids mailbox uids destination there ≡ (done tt, t))
  unfolding move_to
  move_to-exact message_ids destination s t h =
      let ((mailbox, uids), there, one, sent) =
        bind-eq-done (validate_ids account_id transport message_ids) _ s h in
      let checked = validate_ids-exact message_ids s there mailbox uids one in
      (mailbox, uids, there, checked, provided-eq-done _ sent)

  -- When messages have been marked or starred, each id is of the account and of one mailbox, with the
  -- numbering that the server had when the mailbox was selected, and what was then asked of the
  -- transport is exactly to add the flag, or to remove it, at the UIDs of the ids, in their order.
  pub store_flag-exact :
      (message_ids : List String) (flag : String) (is_set : Bool) (s t : S)
      → store_flag account_id transport message_ids flag is_set s ≡ (done tt, t)
      → (mailbox : String) × (uids : List ℕ) × (there : S) × Checked message_ids s mailbox uids
          there
        × (transport.store_flags mailbox uids
              (if is_set then flag ∷ [] else [])
              (if is_set then [] else flag ∷ [])
              there
            ≡ (done tt, t))
  unfolding store_flag
  store_flag-exact message_ids flag is_set s t h =
      let ((mailbox, uids), there, one, sent) =
        bind-eq-done (validate_ids account_id transport message_ids) _ s h in
      let checked = validate_ids-exact message_ids s there mailbox uids one in
      (mailbox, uids, there, checked, provided-eq-done _ sent)
