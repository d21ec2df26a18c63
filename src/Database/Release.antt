-- ===== src/Database/Release.antt =====
-- The writer lock is free again after every transaction.
use masterkeeper.Base.{
  ℕ, Bool, true, false, not, Option, some, List, [], ◌∷◌, ◌≡◌, refl, nat_eqb, arith, ◌⊎◌, inl, inr,
  Bool-cases,
}
use masterkeeper.Base.Result.{ok, err}
use masterkeeper.Database.Lifecycle.{
  Database, Tx, Context, missing, done_before, done_waiting, done_after, deadline_before,
  deadline_waiting, deadline_after, live, Committing, Call, call_commit, call_rollback,
  call_set_rollback_only, End, returns_nil, returns_error, panics, Reply, replied, lock, unlock,
  with_lock, call_locking, call_close, release_writer_lock, rollback, commit, run_call, run_calls,
  finish, run_transaction, rolled_back, clean_up, Error, invalid_context, context_error,
  wait_timeout, database_closed, nested_transaction,
}

-- The transaction holds the lock exactly as long as it is active.
abbrev pub Holds : Tx × Database → Type 0
Holds (t, d) = (d.write_lock ≡ not t.active) × (t.active ≡ false → d.active_goroutine ≡ 0)

rollback-Holds : (marks : Bool) (s : Tx × Database) → Holds s → Holds (rolled_back marks s)
unfolding rollback release_writer_lock unlock
rollback-Holds marks (t, d) h = ground (arith, h.0, h.1)

commit-Holds :
    (marks : Bool) (c : Committing) (s : Tx × Database)
    → Holds s
    → Holds ((commit marks c s).1, (commit marks c s).2)
unfolding commit rollback release_writer_lock unlock
commit-Holds marks c (t, d) h = ground (arith, h.0, h.1)

-- Does a call of the callback ask for the lock before a commit or a rollback ends the transaction?
abbrev pub locks_inside : List Call → Bool
locks_inside [] = false
locks_inside (call_commit marks c ∷ cs) = false
locks_inside (call_rollback marks ∷ cs) = false
locks_inside (call_set_rollback_only ∷ cs) = locks_inside cs
locks_inside (call_locking ∷ cs) = true
locks_inside (call_close ∷ cs) = true

-- Behind the end of its transaction the callback finds the lock free.
run_calls-ended :
    (cs : List Call) (s : Tx × Database)
    → s.0.active ≡ false
    → Holds s
    → (after : Tx × Database) × (run_calls cs s ≡ some after) × Holds after
unfolding run_calls run_call with_lock commit rollback lock unlock
run_calls-ended [] s over h = (s, refl, h)
run_calls-ended (call_commit marks c ∷ cs) (t, d) over h =
    let (after, eq, holds) = run_calls-ended cs (t, d) over h in
    (after, ground (arith, over, eq), holds)
run_calls-ended (call_rollback marks ∷ cs) (t, d) over h =
    let (after, eq, holds) = run_calls-ended cs (t, d) over h in
    (after, ground (arith, over, eq), holds)
run_calls-ended (call_set_rollback_only ∷ cs) (t, d) over h =
    run_calls-ended cs (record t { rollback_only = true }, d) over h
run_calls-ended (call_locking ∷ cs) (t, d) over h =
    let (after, eq, holds) =
      run_calls-ended cs (t, record d { write_lock = true }) over (ground (arith, over), h.1) in
    (after, ground (arith, over, h.0, eq), holds)
run_calls-ended (call_close ∷ cs) (t, d) over h =
    let (after, eq, holds) =
      run_calls-ended cs (t, record d { write_lock = true; closed = true }) over
        (ground (arith, over), h.1) in
    (after, ground (arith, over, h.0, eq), holds)

commit-ends :
    (marks : Bool) (c : Committing) (s : Tx × Database) → (commit marks c s).1.active ≡ false
unfolding commit rollback
commit-ends marks c (t, d) = ground arith

rollback-ends : (marks : Bool) (s : Tx × Database) → (rollback marks s).1.active ≡ false
unfolding rollback
rollback-ends marks (t, d) = ground arith

run_calls-Holds :
    (cs : List Call) (s : Tx × Database)
    → locks_inside cs ≡ false
    → Holds s
    → (after : Tx × Database) × (run_calls cs s ≡ some after) × Holds after
unfolding run_calls run_call
run_calls-Holds [] s clear h = (s, refl, h)
run_calls-Holds (call_commit marks c ∷ cs) s clear h =
    run_calls-ended cs ((commit marks c s).1, (commit marks c s).2) (commit-ends marks c s)
      (commit-Holds marks c s h)
run_calls-Holds (call_rollback marks ∷ cs) s clear h =
    run_calls-ended cs (rolled_back marks s) (rollback-ends marks s) (rollback-Holds marks s h)
run_calls-Holds (call_set_rollback_only ∷ cs) (t, d) clear h =
    run_calls-Holds cs (record t { rollback_only = true }, d) clear h
run_calls-Holds (call_locking ∷ cs) s clear h = absurd (cc)
run_calls-Holds (call_close ∷ cs) s clear h = absurd (cc)

-- Behind the end of the callback the lock is free and no goroutine is marked as running.
Free : Database → Type 0
Free d = (d.write_lock ≡ true) × (d.active_goroutine ≡ 0)

finish-Free :
    (marks : Bool) (c : Committing) (end : End) (s : Tx × Database)
    → Holds s
    → Free (finish marks c end s).2
unfolding finish clean_up commit rollback release_writer_lock unlock Free
finish-Free marks c returns_nil (t, d) h = ground (arith, h.0, h.1)
finish-Free marks c (returns_error e) (t, d) h = ground (arith, h.0, h.1)
finish-Free marks c panics (t, d) h = ground (arith, h.0, h.1)

-- A wait for a free lock ends, with the lock taken or with an error and the lock free.
lock-cases :
    (context : Context) (d : Database)
    → d.write_lock ≡ true
    → (lock context d ≡ some (ok tt, record d { write_lock = false }))
      ⊎ ((e : Error) × (after : Database) × (lock context d ≡ some (err e, after))
          × (after.write_lock ≡ true))
unfolding lock unlock
lock-cases missing d free = inr (invalid_context, d, refl, free)
lock-cases done_before d free = inr (context_error, d, refl, free)
lock-cases deadline_before d free = inr (wait_timeout, d, refl, free)
lock-cases done_waiting d free = inr (context_error, d, refl, free)
lock-cases deadline_waiting d free = inr (wait_timeout, d, refl, free)
lock-cases done_after d free = inr (context_error, record d { write_lock = true }, rw free, refl)
lock-cases deadline_after d free = inr (wait_timeout, record d { write_lock = true }, rw free, refl)
lock-cases live d free = inl (rw free)

module _ (context : Context) (goroutine : ℕ) (marks : Bool) (c : Committing) (calls : List Call)
    (end : End) (d : Database) (free : d.write_lock ≡ true)
    (clear : locks_inside calls ≡ false) where
  abbrev Releases : Option (Reply × Database) → Type 0
  Releases o =
      (reply : Reply) × (after : Database) × (o ≡ some (reply, after)) × (after.write_lock ≡ true)

  Releases-locked :
      nat_eqb d.active_goroutine goroutine ≡ false
      → lock context d ≡ some (ok tt, record d { write_lock = false })
      → Releases (run_transaction context goroutine marks c calls end d)
  unfolding run_transaction unlock Free
  Releases-locked other locked = elim (Bool-cases d.closed) [
    | inl shut ↦ (
      replied (err database_closed),
      record d { write_lock = true },
      rw (other, locked, shut),
      refl,
    )
    | inr alive ↦
        let start : Tx = record { active = true; rollback_only = false } in
        let inside : Database = record d { write_lock = false; active_goroutine = goroutine } in
        let held : Holds (start, inside) = (refl, λ e. absurd (cc)) in
        let (after, ran, holds) = run_calls-Holds calls (start, inside) clear held in
        let done = finish marks c end after in
        (done.0, done.2, rw (other, locked, ran, alive), (finish-Free marks c end after holds).0)
  ]

  -- Where the lock is free and no other goroutine takes it, and the callback makes no call that takes
  -- it (`GetTable` on a new table, `DropTable`, `Compact`, `Backup`, `Close`) before it commits or
  -- rolls back, `runTransaction` comes back and leaves the lock free: whatever the context, the
  -- goroutine, the other calls of the callback and those behind the end of the transaction, its
  -- return or panic, and the failures of the log.
  pub run_transaction-releases :
      (reply : Reply) × (after : Database) × (run_transaction context goroutine marks c calls end d
        ≡ some (reply, after))
      × (after.write_lock ≡ true)
  unfolding run_transaction
  run_transaction-releases = elim (Bool-cases (nat_eqb d.active_goroutine goroutine)) [
    | inl nested ↦ (replied (err nested_transaction), d, rw nested, free)
    | inr other ↦ elim (lock-cases context d free) [
      | inl locked ↦ Releases-locked other locked
      | inr (e, after, refused, still) ↦ (replied (err e), after, rw (other, refused), still)
    ]
  ]
