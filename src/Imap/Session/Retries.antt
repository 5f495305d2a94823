-- ===== src/Imap/Session/Retries.antt =====
-- The loop of `run_session_operation` ends, and repeats an operation at most once, a change never.
use quick_mail.Prelude.{
  ℕ, suc, Bool, true, false, not, ◌&&◌, Option, some, ◌≡◌, refl, arith, inl, inr, Bool-cases,
}
use quick_mail.Imap.Error.{
  Reply, done, fail, ImapError, SessionErrorAction, return_error, invalidate_and_return,
  invalidate_and_retry, session_error_action, is_stale,
}
use quick_mail.Imap.Session.{
  Step, Lane, on_error, lock_session, ended, locked, session_loop, run_session_operation,
}

action_sound :
    (error : ImapError) (retry_safe already_retried : Bool)
    → is_stale error ≡ false
    → session_error_action error retry_safe already_retried ≡ return_error
unfolding session_error_action
action_sound error retry_safe already_retried sound = rw (session_error_action, sound) refl

action_final :
    (error : ImapError) (retry_safe already_retried : Bool)
    → is_stale error ≡ true
    → (retry_safe && not already_retried) ≡ false
    → session_error_action error retry_safe already_retried ≡ invalidate_and_return
unfolding session_error_action
action_final error retry_safe already_retried stale h = rw (session_error_action, stale, h) refl

on_error-some :
    {A : Type 0} (action : SessionErrorAction) (a b c : A) (o : Option A)
    → o ≡ some c
    → on_error action (some a) (some b) o ≡ some (on_error action a b c)
on_error-some return_error a b c o h = refl
on_error-some invalidate_and_return a b c o h = refl
on_error-some invalidate_and_retry a b c o h = h

module _ {W A : Type 0} where
  -- What an operation leaves that is not repeated.
  abbrev pub finished : Reply ImapError A × W → Reply ImapError A × Lane W
  finished (done a, world) = (done a, record { is_open = true; world = world })
  finished (fail error, world) =
      (fail error, record { is_open = not (is_stale error); world = world })

  abbrev pub once :
      Step W ImapError A → Reply ImapError (Unit {0}) × Lane W → Reply ImapError A × Lane W
  once operation (done _, lane) = finished (operation lane.world)
  once operation (fail error, lane) = (fail error, lane)

  module _ (retry_safe : Bool) (operation : Step W ImapError A) where
    -- What a first round answers, if the second one answers with `second`.
    abbrev after_error :
        (Lane W → Reply ImapError A × Lane W)
        → ImapError
        → Lane W
        → Lane W
        → Reply ImapError A × Lane W
    after_error second error held dropped =
        on_error (session_error_action error retry_safe false) (fail error, held)
          (fail error, dropped) (second dropped)

    abbrev ended_once :
        (Lane W → Reply ImapError A × Lane W) → Reply ImapError A × W → Reply ImapError A × Lane W
    ended_once second (done a, world) = (done a, record { is_open = true; world = world })
    ended_once second (fail error, world) =
        after_error second error (record { is_open = true; world = world })
          (record { is_open = false; world = world })

    abbrev pub retried_once :
        (Lane W → Reply ImapError A × Lane W)
        → Reply ImapError (Unit {0}) × Lane W
        → Reply ImapError A × Lane W
    retried_once second (done _, lane) = ended_once second (operation lane.world)
    retried_once second (fail error, lane) = after_error second error lane lane

  module _ (retry_safe : Bool) (operation : Step W ImapError A)
      (again : Bool → Lane W → Option (Reply ImapError A × Lane W)) where
    ended_final :
        (already_retried : Bool) (reply : Reply ImapError A × W)
        → (retry_safe && not already_retried) ≡ false
        → ended retry_safe operation again already_retried reply ≡ some (finished reply)
    unfolding ended
    ended_final already_retried (done a, world) h = refl
    ended_final already_retried (fail error, world) h = elim (Bool-cases (is_stale error)) [
      | inl stale ↦ rw (ended, action_final error retry_safe already_retried stale h, stale) refl
      | inr sound ↦ rw (ended, action_sound error retry_safe already_retried sound, sound) refl
    ]

    -- A round that may not be repeated gives an answer at once.
    locked_final :
        (already_retried : Bool) (reply : Reply ImapError (Unit {0}) × Lane W)
        → (retry_safe && not already_retried) ≡ false
        → locked retry_safe operation again already_retried reply ≡ some (once operation reply)
    unfolding locked
    locked_final already_retried (done _, lane) h =
        ended_final already_retried (operation lane.world) h
    locked_final already_retried (fail error, lane) h = elim (Bool-cases (is_stale error)) [
      | inl stale ↦ rw (locked, action_final error retry_safe already_retried stale h) refl
      | inr sound ↦ rw (locked, action_sound error retry_safe already_retried sound) refl
    ]

    module _ (second : Lane W → Reply ImapError A × Lane W)
        (answers : (lane : Lane W) → again true lane ≡ some (second lane)) where
      ended_first :
          (reply : Reply ImapError A × W)
          → ended retry_safe operation again false reply
            ≡ some (ended_once retry_safe operation second reply)
      unfolding ended
      ended_first (done a, world) = refl
      ended_first (fail error, world) = on_error-some _ _ _ _ _ (answers _)

      locked_first :
          (reply : Reply ImapError (Unit {0}) × Lane W)
          → locked retry_safe operation again false reply
            ≡ some (retried_once retry_safe operation second reply)
      unfolding locked
      locked_first (done _, lane) = ended_first (operation lane.world)
      locked_first (fail error, lane) = on_error-some _ _ _ _ _ (answers lane)

module _ {W A : Type 0} (connect : Step W ImapError (Unit {0})) where
  -- An operation that changes something on the server is never repeated: it runs at most once, on
  -- the session that was locked, and a lost connection is dropped from the pool.
  pub run_session_operation-once :
      (operation : Step W ImapError A) (lane : Lane W)
      → run_session_operation connect false operation lane
        ≡ once operation (lock_session connect lane)
  unfolding run_session_operation session_loop
  run_session_operation-once operation lane =
      rw
        (locked_final false operation (session_loop connect 1 false operation) false
          (lock_session connect lane) refl)
        refl

  -- One round that may not be repeated.
  abbrev pub final_round : Step W ImapError A → Lane W → Reply ImapError A × Lane W
  final_round operation lane = once operation (lock_session connect lane)

  session_loop-retried :
      (more : ℕ) (retry_safe : Bool) (operation : Step W ImapError A) (lane : Lane W)
      → session_loop connect (suc more) retry_safe operation true lane
        ≡ some (final_round operation lane)
  unfolding session_loop
  session_loop-retried more retry_safe operation lane =
      locked_final retry_safe operation (session_loop connect more retry_safe operation) true
        (lock_session connect lane) (ground arith)

  session_loop-first :
      (more : ℕ) (retry_safe : Bool) (operation : Step W ImapError A) (lane : Lane W)
      → session_loop connect (suc (suc more)) retry_safe operation false lane
        ≡ some
            (retried_once retry_safe operation (final_round operation) (lock_session connect lane))
  unfolding session_loop
  session_loop-first more retry_safe operation lane =
      locked_first retry_safe operation (session_loop connect (suc more) retry_safe operation)
        (final_round operation) (session_loop-retried more retry_safe operation)
        (lock_session connect lane)

  -- The loop ends after at most two rounds, whatever the connection and the operation do: with two
  -- rounds or more it answers what `run_session_operation` does.
  pub session_loop-ends :
      (more : ℕ) (retry_safe : Bool) (operation : Step W ImapError A) (lane : Lane W)
      → session_loop connect (suc (suc more)) retry_safe operation false lane
        ≡ some (run_session_operation connect retry_safe operation lane)
  unfolding run_session_operation
  session_loop-ends more retry_safe operation lane =
      rw
        (
          session_loop-first more retry_safe operation lane,
          session_loop-first 0 retry_safe operation lane,
        )
        refl

  -- An operation that succeeds on an open session is not repeated.
  pub run_session_operation-done :
      (retry_safe : Bool) (operation : Step W ImapError A) (w : W) (a : A) (w' : W)
      → operation w ≡ (done a, w')
      → run_session_operation connect retry_safe operation (record { is_open = true; world = w })
        ≡ (done a, record { is_open = true; world = w' })
  unfolding run_session_operation session_loop locked ended lock_session
  run_session_operation-done retry_safe operation w a w' h =
      rw (run_session_operation, session_loop, locked, lock_session, h) refl
