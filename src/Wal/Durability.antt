-- ===== src/Wal/Durability.antt =====
-- What a reply of `processTasks` says about the log.
use masterkeeper.Base.{
  ℕ, zero, suc, Bool, true, false, not, ◌||◌, some, List, [], ◌∷◌, ◌++◌, ◌≡◌, refl, sym, ap, ◌∙◌,
  length, get_elem?, arith, length-append,
}
use mathlib.Core.List.{append-nil, append_assoc}
use mathlib.Core.Option.{none-ne-some}
use masterkeeper.Base.Slice.{take_all, drop_all}
use masterkeeper.Base.Dict.{Dict}
use masterkeeper.Storage.{RecordPointer, Fault, succeeds, fails_after}
use masterkeeper.Storage.File.{write_at-eq}
use masterkeeper.Wal.Record.{WalRecord, op_commit_transaction, write_records, write_record}
use masterkeeper.Wal.Manager.{
  WalManager, WriteTask, WriteResult, Faults, Io, io_ok, append_bytes, append_tasks, markers_of,
  marker, mutations_of, complete, process_open, process_tasks, DurabilityMode,
}

pub append_bytes_end :
    (file bytes : List ℕ) (off : ℕ)
    → off ≡ length file
    → append_bytes succeeds (file, off) bytes ≡ (file ++ bytes, length (file ++ bytes))
unfolding append_bytes
append_bytes_end file bytes off e = rw (
  e,
  write_at-eq file (length file) bytes (omega arith),
  take_all file,
  drop_all file (length bytes),
  append-nil bytes,
  length-append file bytes,
)

pub write_records-append :
    (crc : List ℕ → ℕ) (rs ss : List WalRecord)
    → write_records crc (rs ++ ss) ≡ write_records crc rs ++ write_records crc ss
unfolding write_records
write_records-append crc [] ss = refl
write_records-append crc (r ∷ rs) ss =
    ap (λ t. write_record crc r ++ t) (write_records-append crc rs ss)
    ∙ sym (append_assoc (write_record crc r) (write_records crc rs) (write_records crc ss))

-- A task that is told of no error: nothing failed, and the marker at its place is a commit marker.
told :
    (failed : Bool) (rs : List WriteResult) (i : ℕ) (ps : Dict _ (List RecordPointer))
    → get_elem? (complete failed rs) i ≡ some (some ps)
    → (failed ≡ false) × (get_elem? rs i ≡ some (some ps))
unfolding complete
told failed [] i ps e = absurd (none-ne-some _ e)
told failed (r ∷ rs) zero ps e = ground arith
told failed (r ∷ rs) (suc i) ps e = told failed rs i ps e

marked :
    (ts : List WriteTask) (rs : List WriteResult) (i : ℕ) (t : WriteTask)
    (ps : Dict _ (List RecordPointer))
    → get_elem? ts i ≡ some t
    → get_elem? rs i ≡ some (some ps)
    → get_elem? (markers_of false ts rs) i ≡ some (marker op_commit_transaction t)
unfolding markers_of
marked [] rs i t ps e g = absurd (none-ne-some _ e)
marked (x ∷ ts) [] i t ps e g = absurd (none-ne-some _ g)
marked (x ∷ ts) (r ∷ rs) zero t ps e g = ground arith
marked (x ∷ ts) (r ∷ rs) (suc i) t ps e g = marked ts rs i t ps e g

write_ok : (mode : DurabilityMode) (io : Io) → io_ok mode io ≡ true → io.write ≡ succeeds
unfolding io_ok
write_ok mode io e = go io.write refl
  where
    go : (w : Fault) → io.write ≡ w → io.write ≡ succeeds
    go succeeds p = p
    go (fails_after n) p = absurd (ground (arith, p, e))

nothing_failed :
    (a b c : Bool)
    → ((not a || b) || not c) ≡ false
    → (a ≡ true) × ((not a || b) ≡ false) × (c ≡ true)
nothing_failed true true c e = ground arith
nothing_failed true false c e = ground arith
nothing_failed false b c e = ground arith

append_twice :
    (file xs ys : List ℕ) (v w : Fault)
    → v ≡ succeeds
    → w ≡ succeeds
    → append_bytes w (append_bytes v (file, length file) xs) ys
      ≡ (file ++ (xs ++ ys), length (file ++ (xs ++ ys)))
append_twice file xs ys v w p q = rw (
  p,
  q,
  append_bytes_end file xs (length file) refl,
  append_bytes_end (file ++ xs) ys (length (file ++ xs)) refl,
  append_assoc file xs ys,
)

some_inj {ℓ} : {A : Type ℓ} {x y : A} → some x ≡ some y → x ≡ y
some_inj e = cc

ran_some :
    (crc : List ℕ → ℕ) (faults : Faults) (m : WalManager) (log : List ℕ × ℕ) (x : WriteTask)
    (xs : List WriteTask)
    → m.wal_file ≡ some log
    → some (process_open crc faults m log (x ∷ xs)) ≡ process_tasks crc faults m (x ∷ xs)
unfolding process_tasks
ran_some crc faults m log x xs e = rw e

module _ (crc : List ℕ → ℕ) (faults : Faults) (m : WalManager) (file : List ℕ)
    (tasks : List WriteTask) where
  abbrev failed1 : Bool
  failed1 = not (io_ok m.durability faults.mutations)

  ran_open :
      (i : ℕ) (t : WriteTask) (results : List WriteResult) (after : WalManager)
      → m.wal_file ≡ some (file, length file)
      → process_tasks crc faults m tasks ≡ some (results, after)
      → get_elem? tasks i ≡ some t
      → ((process_open crc faults m (file, length file) tasks).0 ≡ results)
        × ((process_open crc faults m (file, length file) tasks).1 ≡ after)
  ran_open i t results after open_ ran e = go tasks refl
    where
      go :
          (ts : List WriteTask)
          → tasks ≡ ts
          → ((process_open crc faults m (file, length file) tasks).0 ≡ results)
            × ((process_open crc faults m (file, length file) tasks).1 ≡ after)
      go [] p = absurd (none-ne-some _ (ap (λ l. get_elem? l i) (sym p) ∙ e))
      go (x ∷ xs) p =
          let whole =
            ran_some crc faults m (file, length file) x xs open_
            ∙ ap (process_tasks crc faults m) (sym p)
            ∙ ran in
          let pair = ap (λ l. process_open crc faults m (file, length file) l) p ∙ some_inj whole in
          (ap (λ y. y.0) pair, ap (λ y. y.1) pair)

  -- The log with the mutations and, behind them, the markers for these results.
  abbrev pub grown_with : List WriteResult → List ℕ
  grown_with rs = file ++ write_records crc (mutations_of tasks ++ markers_of false tasks rs)

  reported-open :
      (i : ℕ) (t : WriteTask) (ps : Dict _ (List RecordPointer))
      → get_elem? tasks i ≡ some t
      → get_elem? (process_open crc faults m (file, length file) tasks).0 i ≡ some (some ps)
      → (rs : List WriteResult) × (get_elem? (markers_of false tasks rs) i
          ≡ some (marker op_commit_transaction t))
        × ((process_open crc faults m (file, length file) tasks).1.wal_file
            ≡ some (grown_with rs, length (grown_with rs)))
  unfolding process_open
  reported-open i t ps e g =
      let rs = (append_tasks failed1 faults tasks m.table_storage []).0 in
      let (fine, found) = told _ rs i ps g in
      let (ok1, none2, ok3) = nothing_failed (io_ok m.durability faults.mutations) _ _ fine in
      (
        rs,
        marked tasks rs i t ps e found,
        ap some (
            append_twice file (write_records crc (mutations_of tasks)) _ faults.mutations.write
              faults.markers.write (write_ok m.durability faults.mutations ok1)
              (write_ok m.durability faults.markers ok3)
            ∙ ap (λ w. (file ++ w, length (file ++ w)))
                (sym (write_records-append crc (mutations_of tasks) _))
            ∙ ap
                (λ b. (
                  file ++ write_records crc (mutations_of tasks ++ markers_of b tasks rs),
                  length (file ++ write_records crc (mutations_of tasks ++ markers_of b tasks rs)),
                ))
                none2),
      )

  pub reported-markers :
      (i : ℕ) (t : WriteTask) (ps : Dict _ (List RecordPointer)) (results : List WriteResult)
      (after : WalManager)
      → m.wal_file ≡ some (file, length file)
      → process_tasks crc faults m tasks ≡ some (results, after)
      → get_elem? tasks i ≡ some t
      → get_elem? results i ≡ some (some ps)
      → (rs : List WriteResult) × (get_elem? (markers_of false tasks rs) i
          ≡ some (marker op_commit_transaction t))
        × (after.wal_file ≡ some (grown_with rs, length (grown_with rs)))
  reported-markers i t ps results after open_ ran e g =
      let (results_eq, after_eq) = ran_open i t results after open_ ran e in
      let (rs, at_i, grown) = reported-open i t ps e (ap (λ r. get_elem? r i) results_eq ∙ g) in
      (rs, at_i, sym (ap (λ x. x.wal_file) after_eq) ∙ grown)

  -- If `processTasks` tells a task of no error, whatever else fails and whatever else is in the batch,
  -- then the log, which was open with the offset at its end, has grown by the mutations of all tasks
  -- and markers behind them, and the marker at the place of that task is its commit marker.
  pub process_tasks-reported :
      (i : ℕ) (t : WriteTask) (ps : Dict _ (List RecordPointer)) (results : List WriteResult)
      (after : WalManager)
      → m.wal_file ≡ some (file, length file)
      → process_tasks crc faults m tasks ≡ some (results, after)
      → get_elem? tasks i ≡ some t
      → get_elem? results i ≡ some (some ps)
      → (marks : List WalRecord) × (get_elem? marks i ≡ some (marker op_commit_transaction t))
        × (after.wal_file
            ≡ some (
              file ++ write_records crc (mutations_of tasks ++ marks),
              length (file ++ write_records crc (mutations_of tasks ++ marks)),
            ))
  process_tasks-reported i t ps results after open_ ran e g =
      let (rs, at_i, grown) = reported-markers i t ps results after open_ ran e g in
      (markers_of false tasks rs, at_i, grown)
