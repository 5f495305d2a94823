-- ===== src/Imap/Session.antt =====
-- `AsyncImapTransport` of crates/quickmaild/src/providers/imap_smtp.rs: its connection, and the loop
-- that opens it and repeats an operation whose connection was lost.
pub mod Retries
use quick_mail.Prelude.{
  ℕ, zero, suc, String, Bool, true, false, Option, none, some, List, ◌≡◌, refl,
}
use quick_mail.Imap.Error.{
  Reply, done, fail, ImapError, SessionErrorAction, return_error, invalidate_and_return,
  invalidate_and_retry, session_error_action, command_timeout,
}

-- What an operation on a state answers, and the state that it leaves; an error may leave another
-- state too.
abbrev pub Step : Type 0 → Type 0 → Type 0 → Type 0
Step S E A = S → Reply E A × S

abbrev pub after : {S E A B : Type 0} → (A → Step S E B) → Reply E A × S → Reply E B × S
after next (done a, s) = next a s
after next (fail e, s) = (fail e, s)

infixl 5 ◌>>=◌
-- An error ends the method.
abbrev pub ◌>>=◌ : {S E A B : Type 0} → Step S E A → (A → Step S E B) → Step S E B
m >>= next = λ s. after next (m s)

infixl 5 ◌>>◌
abbrev pub ◌>>◌ : {S E A B : Type 0} → Step S E A → Step S E B → Step S E B
m >> next = m >>= λ answer. next

abbrev pub pure : {S E A : Type 0} → A → Step S E A
pure a = λ s. (done a, s)

-- An answer that needs no state.
abbrev pub lift : {S E A : Type 0} → Reply E A → Step S E A
lift reply = λ s. (reply, s)

after-eq-done :
    {S E A B : Type 0} (next : A → Step S E B) (reply : Reply E A × S) {b : B} {s : S}
    → after next reply ≡ (done b, s)
    → (a : A) × (t : S) × (reply ≡ (done a, t)) × (next a t ≡ (done b, s))
after-eq-done next (done a, t) h = (a, t, refl, h)
after-eq-done next (fail e, t) h = cc

-- What a sequence that succeeds has passed through.
pub bind-eq-done :
    {S E A B : Type 0} (m : Step S E A) (next : A → Step S E B) (s : S) {b : B} {s' : S}
    → (m >>= next) s ≡ (done b, s')
    → (a : A) × (t : S) × (m s ≡ (done a, t)) × (next a t ≡ (done b, s'))
bind-eq-done m next s h = after-eq-done next (m s) h

-- The state of a connection: whether the pool holds a session, and the world behind it.
pub record Lane (W : Type 0) : Type 0 where
  pub is_open : Bool
  pub world : W

module _ {W : Type 0} where
  opened : Reply ImapError (Unit {0}) × W → Reply ImapError (Unit {0}) × Lane W
  opened (done _, world) = (done tt, record { is_open = true; world = world })
  opened (fail error, world) = (fail error, record { is_open = false; world = world })

  -- `lock_session`: a session is opened where the pool holds none.
  unfoldable pub lock_session : Step W ImapError (Unit {0}) → Step (Lane W) ImapError (Unit {0})
  unfolding opened
  lock_session connect lane = elim lane.is_open [
    | true ↦ (done tt, lane)
    | false ↦ opened (connect lane.world)
  ]

-- `match session_error_action(...)`.
abbrev pub on_error : {A : Type 0} → SessionErrorAction → A → A → A → A
on_error return_error a b c = a
on_error invalidate_and_return a b c = b
on_error invalidate_and_retry a b c = c

module _ {W A : Type 0} (retry_safe : Bool) (operation : Step W ImapError A)
    (again : Bool → Lane W → Option (Reply ImapError A × Lane W)) where
  -- After an operation: the pool keeps the session, or drops it, or another round follows.
  ended : Bool → Reply ImapError A × W → Option (Reply ImapError A × Lane W)
  ended already_retried (done a, world) = some (done a, record { is_open = true; world = world })
  ended already_retried (fail error, world) =
      on_error (session_error_action error retry_safe already_retried)
        (some (fail error, record { is_open = true; world = world }))
        (some (fail error, record { is_open = false; world = world }))
        (again true (record { is_open = false; world = world }))

  -- After `lock_session`.
  locked : Bool → Reply ImapError (Unit {0}) × Lane W → Option (Reply ImapError A × Lane W)
  unfolding ended
  locked already_retried (done _, lane) = ended already_retried (operation lane.world)
  locked already_retried (fail error, lane) =
      on_error (session_error_action error retry_safe already_retried) (some (fail error, lane))
        (some (fail error, lane)) (again true lane)

module _ {W A : Type 0} (connect : Step W ImapError (Unit {0})) where
  -- The loop, for so many rounds; `none` where they do not suffice.
  unfoldable pub session_loop :
      ℕ → Bool → Step W ImapError A → Bool → Lane W → Option (Reply ImapError A × Lane W)
  unfolding lock_session locked
  session_loop zero retry_safe operation already_retried lane = none
  session_loop (suc rounds) retry_safe operation already_retried lane =
      locked retry_safe operation (session_loop rounds retry_safe operation) already_retried
        (lock_session connect lane)

  abbrev or_stuck : Lane W → Option (Reply ImapError A × Lane W) → Reply ImapError A × Lane W
  or_stuck lane none = (fail command_timeout, lane)
  or_stuck lane (some reply) = reply

  -- `run_session_operation`. Two rounds suffice, so that the loop always gives an answer here.
  unfoldable pub run_session_operation : Bool → Step W ImapError A → Step (Lane W) ImapError A
  unfolding session_loop
  run_session_operation retry_safe operation lane =
      or_stuck lane (session_loop 2 retry_safe operation false lane)
