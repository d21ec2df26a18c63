-- ===== src/Database/Lifecycle.antt =====
-- db.go and tx.go: the writer lock, `runTransaction`, and `Commit` and `Rollback` as they end a
-- transaction. A callback is the calls that it makes on its transaction and the way it ends; what
-- the context, the log and the commit of the changes do is an argument.
use masterkeeper.Base.{
  ℕ, suc, Bool, true, false, not, Option, none, some, List, [], ◌∷◌, nat_eqb, if◌then◌else◌,
}
use masterkeeper.Base.Result.{Result, ok, err}

pub data Error : Type 0 where
  invalid_context context_error wait_timeout nested_transaction database_closed not_active
        rollback_only :
      Error
  marker_failed unique_violation write_failed : Error
  callback_failed : ℕ → Error

-- `write_lock` is whether the token is in the channel; `active_goroutine` is 0 when none runs.
pub record Database : Type 0 where
  pub write_lock : Bool
  pub active_goroutine : ℕ
  pub closed : Bool
  -- how many states have been published, and how many rollback markers written
  pub published : ℕ
  pub rollback_markers : ℕ

-- The part of a transaction that its end depends on.
pub record Tx : Type 0 where
  pub active : Bool
  pub rollback_only : Bool

-- What the context is found to be: done before the wait, done while it waits, done when the token
-- has been taken, or never.
pub data Context : Type 0 where
  missing done_before done_waiting done_after deadline_before deadline_waiting deadline_after live :
      Context

unfoldable pub unlock : Database → Database
unlock d = record d { write_lock = true }

unfoldable pub release_writer_lock : Database → Database
release_writer_lock d = unlock (record d { active_goroutine = 0 })

-- `lock`; `none` is a wait that does not end, on a token that is never put back.
unfoldable pub lock : Context → Database → Option (Result Error (Unit {0}) × Database)
lock missing d = some (err invalid_context, d)
lock done_before d = some (err context_error, d)
lock deadline_before d = some (err wait_timeout, d)
lock done_waiting d = some (err context_error, d)
lock deadline_waiting d = some (err wait_timeout, d)
lock done_after d =
    if d.write_lock
    then some (err context_error, unlock (record d { write_lock = false }))
    else none
lock deadline_after d =
    if d.write_lock then some (err wait_timeout, unlock (record d { write_lock = false })) else none
lock live d = if d.write_lock then some (ok tt, record d { write_lock = false }) else none

-- What the log answers to a rollback marker, and what `Commit` meets: a unique violation, a failed
-- write or shadow index, nothing to write, or a published state.
pub data Committing : Type 0 where
  violates_unique fails nothing_to_write publishes : Committing

unfoldable pub rollback : Bool → Tx × Database → Result Error (Unit {0}) × Tx × Database
rollback marks (t, d) = if not t.active then (ok tt, t, d) else (
  if marks then ok tt else err marker_failed,
  record t { active = false },
  release_writer_lock (if marks then record d { rollback_markers = suc d.rollback_markers } else d),
)

-- `Commit`. The deferred release runs on every path behind the guards; the rollback after a unique
-- violation finds the transaction inactive.
unfoldable pub commit : Bool → Committing → Tx × Database → Result Error (Unit {0}) × Tx × Database
commit marks c (t, d) =
    if not t.active
    then (err not_active, t, d)
    else if t.rollback_only
    then (err rollback_only, (rollback marks (t, d)).1, (rollback marks (t, d)).2)
    else let ended : Tx = record t { active = false } in
      elim c [
        | violates_unique ↦ (
          err unique_violation,
          (rollback marks (ended, d)).1,
          release_writer_lock (rollback marks (ended, d)).2,
        )
        | fails ↦ (err write_failed, ended, release_writer_lock d)
        | nothing_to_write ↦ (ok tt, ended, release_writer_lock d)
        | publishes ↦ (ok tt, ended, release_writer_lock (record d { published = suc d.published }))
      ]

-- The calls of a callback that bear on the end of its transaction or take the writer lock
-- themselves, and how it ends. `call_locking` is a call of `DropTable`, `Compact`, `Backup`, or
-- `GetTable` on a table that is not known yet; it and `Close` lock with a context that is never done.
pub data Call : Type 0 where
  call_commit : Bool → Committing → Call
  call_rollback : Bool → Call
  call_set_rollback_only call_locking call_close : Call

pub data End : Type 0 where
  returns_nil : End
  returns_error : ℕ → End
  panics : End

-- An operation of the database between `lock(context.Background())` and the deferred unlock.
unfoldable pub with_lock : (Database → Database) → Database → Option Database
with_lock body d = elim (lock live d) [
  | none ↦ none
  | some (err e, d1) ↦ some d1
  | some (ok _, d1) ↦ some (unlock (body d1))
]

abbrev pub beside : Tx → Option Database → Option (Tx × Database)
beside t none = none
beside t (some d) = some (t, d)

-- One call; `none` where it waits for ever.
unfoldable pub run_call : Call → Tx × Database → Option (Tx × Database)
run_call (call_commit marks c) s = some ((commit marks c s).1, (commit marks c s).2)
run_call (call_rollback marks) s = some ((rollback marks s).1, (rollback marks s).2)
run_call call_set_rollback_only (t, d) = some (record t { rollback_only = true }, d)
run_call call_locking (t, d) = beside t (with_lock (λ inside. inside) d)
run_call call_close (t, d) = beside t (with_lock (λ inside. record inside { closed = true }) d)

unfoldable pub run_calls : List Call → Tx × Database → Option (Tx × Database)
run_calls [] s = some s
run_calls (c ∷ cs) s = elim (run_call c s) [ none ↦ none | some after ↦ run_calls cs after ]

-- The reply of a run: an error or none, or the panic of the callback passed on.
pub data Reply : Type 0 where
  replied : Result Error (Unit {0}) → Reply
  panicked : Reply

abbrev pub rolled_back : Bool → Tx × Database → Tx × Database
rolled_back marks s = ((rollback marks s).1, (rollback marks s).2)

-- The deferred rollback of what is still active.
unfoldable pub clean_up : Bool → Tx × Database → Tx × Database
clean_up marks s = if s.0.active then rolled_back marks s else s

-- The body behind the callback, and the deferred rollback.
unfoldable pub finish : Bool → Committing → End → Tx × Database → Reply × Tx × Database
finish marks c (returns_error e) s =
    let ended = clean_up marks (clean_up marks s) in
    (replied (err (callback_failed e)), ended.0, ended.1)
finish marks c returns_nil s =
    let committed = commit marks c s in
    let ended = clean_up marks (committed.1, committed.2) in
    if s.0.active then (replied committed.0, ended.0, ended.1) else (replied (ok tt), s.0, s.1)
finish marks c panics s = let ended = clean_up marks s in (panicked, ended.0, ended.1)

-- `runTransaction` by a goroutine, with the callback's calls and its end; `none` where `lock` waits
-- for ever, at the start or in a call of the callback.
unfoldable pub run_transaction :
    Context → ℕ → Bool → Committing → List Call → End → Database → Option (Reply × Database)
run_transaction context goroutine marks c calls end d =
    if nat_eqb d.active_goroutine goroutine
    then some (replied (err nested_transaction), d)
    else elim (lock context d) [
      | none ↦ none
      | some (err e, d1) ↦ some (replied (err e), d1)
      | some (ok _, d1) ↦
          if d1.closed
          then some (replied (err database_closed), unlock d1)
          else let start : Tx = record { active = true; rollback_only = false } in
            elim (run_calls calls (start, record d1 { active_goroutine = goroutine })) [
              | none ↦ none
              | some s ↦ some ((finish marks c end s).0, (finish marks c end s).2)
            ]
    ]
