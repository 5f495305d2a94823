-- ===== src/Storage/Agenda/Range.antt =====
-- The events that `list_events` of crates/quickmaild/src/storage.rs returns for a range of time.
use quick_mail.Prelude.{
  ℤ, Bool, true, false, ◌≡◌, refl, List, [], ◌∷◌, length, ltb_ℤ, leb_ℤ, filter, string_eq, ◌&&◌,
}
use quick_mail.Models.{DateTime, CalendarEvent}
use quick_mail.Storage.Order.{order_by}
use quick_mail.Storage.Order.Sorting.{IsOrdered, order_by-IsOrdered}
use quick_mail.Storage.Order.Filtering.{length-filter-order_by}
use quick_mail.Storage.Schema.{Repository}
use quick_mail.Storage.Result.{ok, Ensures, Ensures-bind, Ensures-if, Ensures-elim, returns, fails}
use quick_mail.Storage.Listing.{below}
use quick_mail.Storage.Listing.Positions.{below_irrefl, below_trans, below_neg_trans}
use quick_mail.Storage.Agenda.{event_before, overlaps, event_from_row, collect_events, list_events}

event_before_irrefl : (a : CalendarEvent) → event_before a a ≡ false
unfolding event_before below
event_before_irrefl a = below_irrefl (a.start_at, a.id)

event_before_trans :
    (a b c : CalendarEvent)
    → event_before a b ≡ true
    → event_before b c ≡ true
    → event_before a c ≡ true
unfolding event_before below
event_before_trans a b c h k =
    below_trans (a.start_at, a.id) (b.start_at, b.id) (c.start_at, c.id) h k

event_before_neg_trans :
    (a b c : CalendarEvent)
    → event_before a b ≡ false
    → event_before b c ≡ false
    → event_before a c ≡ false
unfolding event_before below
event_before_neg_trans a b c h k =
    below_neg_trans (a.start_at, a.id) (b.start_at, b.id) (c.start_at, c.id) h k

module _ (valid_millis : ℤ → Bool) where
  -- Rows that can be read are read as they are.
  collect_events-same :
      (rows : List CalendarEvent) → Ensures (λ out. out ≡ rows) (collect_events valid_millis rows)
  unfolding collect_events event_from_row
  collect_events-same [] = returns [] refl
  collect_events-same (row ∷ rows) =
      Ensures-bind {Q = λ e. e ≡ row}
        (Ensures-if (valid_millis row.start_at && valid_millis row.end_at) (λ _. returns row refl)
          (λ _. fails _))
        (λ e same.
          Ensures-bind (collect_events-same rows)
            (λ out rest. returns (e ∷ out) (λ i. same i ∷ rest i)))

  -- `list_events` returns the events that start before the end of the range and end at or after its
  -- start, each with all its fields and as often as it is stored (whatever a test on events counts,
  -- it counts as many in the answer as among those), ordered by their start and by id at the same
  -- start.
  pub list_events-overlaps :
      {Text : Type 0} (start end : DateTime) (r : Repository Text) (out : List CalendarEvent)
      → list_events valid_millis start end r ≡ ok out
      → IsOrdered event_before out
        × ((test : CalendarEvent → Bool)
            → length (filter test out)
              ≡ length (
                  filter test
                    (filter (λ e. ltb_ℤ e.start_at end && leb_ℤ start e.end_at) r.events)))
  unfolding list_events overlaps
  list_events-overlaps start end r out h =
      let listed = order_by event_before (filter (overlaps start end) r.events) in
      let same = Ensures-elim (collect_events valid_millis listed) (collect_events-same listed) h in
      rw same (
        order_by-IsOrdered event_before event_before_trans event_before_irrefl
            event_before_neg_trans (filter (overlaps start end) r.events),
        λ test. length-filter-order_by event_before test (filter (overlaps start end) r.events),
      )
