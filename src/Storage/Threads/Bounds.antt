-- ===== src/Storage/Threads/Bounds.antt =====
-- The conversation that `get_thread` of crates/quickmaild/src/storage.rs returns.
use quick_mail.Prelude.{
  ◌≤◌, String, Bool, true, false, ◌≡◌, Option, none, some, List, [], ◌∷◌, length, take,
  length-take-le, arith,
}
use quick_mail.Models.{Message, MessageSummary, ThreadConversation}
use quick_mail.Storage.Order.Sorting.{IsOrdered, order_by-IsOrdered, length-order_by}
use quick_mail.Storage.Schema.{Repository}
use quick_mail.Storage.Serde.{Serde}
use quick_mail.Storage.Result.{
  ok, err, not_found, ◌>>=◌, Ensures, Ensures-bind, Ensures-Unit, Ensures-elim, returns, fails,
}
use quick_mail.Storage.Messages.{get_cached_message, collect_summaries}
use quick_mail.Storage.Listing.{below}
use quick_mail.Storage.Listing.Positions.{below_irrefl, below_trans, below_neg_trans}
use quick_mail.Storage.Threads.{
  chronological, conversation, get_thread, thread_of, thread_rows, max_thread_messages,
}

module _ {Json : Type 0} where
  chronological_irrefl : (a : MessageSummary Json) → chronological a a ≡ false
  unfolding chronological below
  chronological_irrefl a = below_irrefl (a.timestamp, a.id)

  chronological_trans :
      (a b c : MessageSummary Json)
      → chronological a b ≡ true
      → chronological b c ≡ true
      → chronological a c ≡ true
  unfolding chronological below
  chronological_trans a b c h k =
      below_trans (a.timestamp, a.id) (b.timestamp, b.id) (c.timestamp, c.id) h k

  chronological_neg_trans :
      (a b c : MessageSummary Json)
      → chronological a b ≡ false
      → chronological b c ≡ false
      → chronological a c ≡ false
  unfolding chronological below
  chronological_neg_trans a b c h k =
      below_neg_trans (a.timestamp, a.id) (b.timestamp, b.id) (c.timestamp, c.id) h k

  -- At most a hundred messages, the oldest first.
  abbrev pub IsConversation : ThreadConversation Json → Type 0
  IsConversation t = (length t.messages ≤ 100) × IsOrdered chronological t.messages

module _ {Json Text : Type 0} (serde : Serde Json Text) where
  conversation-IsConversation :
      (thread_id : String) (found : List (MessageSummary Json))
      → IsConversation (conversation serde thread_id found)
  unfolding conversation
  conversation-IsConversation thread_id found = (
    omega (
      arith,
      length-order_by chronological (take max_thread_messages found),
      length-take-le max_thread_messages found,
    ),
    order_by-IsOrdered chronological chronological_trans chronological_irrefl
        chronological_neg_trans (take max_thread_messages found),
  )

  get_thread-Ensures :
      (message_id : String) (r : Repository Text)
      → Ensures IsConversation (get_thread serde message_id r)
  unfolding get_thread
  get_thread-Ensures message_id r =
      Ensures-bind {Q = λ _. Unit} (Ensures-Unit (get_cached_message serde message_id r))
        (λ anchor _. of_anchor anchor)
    where
      of_thread :
          (anchor : Message Json) (thread_id : Option String)
          → Ensures IsConversation (elim thread_id [
            | none ↦ ok (record {
              id = anchor.summary.id;
              messages = anchor.summary ∷ [];
              truncated = false;
            })
            | some thread_id ↦
                thread_rows serde anchor.summary.account_id thread_id message_id r.messages
                >>= λ rows. collect_summaries serde rows >>= λ found.
                    ok (conversation serde thread_id found)
          ])
      of_thread anchor none = returns _ (omega arith, (tt, tt))
      of_thread anchor (some thread_id) =
          Ensures-bind {Q = λ _. Unit}
            (Ensures-Unit
              (thread_rows serde anchor.summary.account_id thread_id message_id r.messages))
            (λ rows _.
              Ensures-bind {Q = λ _. Unit} (Ensures-Unit (collect_summaries serde rows))
                (λ found _. returns _ (conversation-IsConversation thread_id found)))

      of_anchor :
          (anchor : Option (Message Json × Bool))
          → Ensures IsConversation (elim anchor [
            | none ↦ err not_found
            | some (anchor, _) ↦ elim (thread_of serde anchor.summary) [
              | none ↦ ok (record {
                id = anchor.summary.id;
                messages = anchor.summary ∷ [];
                truncated = false;
              })
              | some thread_id ↦
                  thread_rows serde anchor.summary.account_id thread_id message_id r.messages
                  >>= λ rows. collect_summaries serde rows >>= λ found.
                      ok (conversation serde thread_id found)
            ]
          ])
      of_anchor none = fails _
      of_anchor (some (anchor, loaded)) = of_thread anchor (thread_of serde anchor.summary)

  -- The conversation that `get_thread` returns has at most a hundred messages, ordered from the
  -- oldest to the newest, and by id at the same time.
  pub get_thread-IsConversation :
      (message_id : String) (r : Repository Text) (t : ThreadConversation Json)
      → get_thread serde message_id r ≡ ok t
      → (length t.messages ≤ 100) × IsOrdered chronological t.messages
  get_thread-IsConversation message_id r t h =
      Ensures-elim {P = IsConversation} (get_thread serde message_id r)
        (get_thread-Ensures message_id r) h
