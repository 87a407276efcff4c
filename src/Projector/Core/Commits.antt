-- ===== src/Projector/Core/Commits.antt =====
-- Visualize/integration/projector/core.py: how far the commits come, in `_maybe_commit` and `recover`.
use smart_data_models.Prelude.{
  ℕ, ◌+◌, ◌≤◌, ◌<◌, String, true, false, Option, none, some, List, ◌≡◌, refl, sym, ap, ◌∙◌, subst,
  inl, inr, arith, leb, if-true, if-split, Bool-cases, Dict, get, put, get-put, same_refl,
  TopicPartition, topic_partition_key,
}
use native.Mathlib.Nat.{le_refl}
use smart_data_models.Projector.Tables.{LedgerRow, ProjectorStore}
use smart_data_models.Projector.Store.{get_committed_offset, set_committed_offset}
use smart_data_models.Projector.Store.Recovery.{rebuild_completed_offsets}
use smart_data_models.Projector.Store.Recovery.Run.{rebuild_completed_offsets-IsRun, has_completed}
use smart_data_models.Projector.OffsetTracker.{
  OffsetTracker, contains, done_at, passes, contiguous_commit_offset, advance_commit,
  load_committed,
}
use smart_data_models.Projector.OffsetTracker.Prefix.{IsHighest, IsPrefixEnd}
use smart_data_models.Projector.OffsetTracker.Commit.{contiguous_commit_offset-IsHighest}
use smart_data_models.Projector.Core.State.{
  Core, Env, Answer, returned, pure, update, continue, ◌>>=◌, ◌>>◌, write, answer_of, first_end,
  later_ends,
}
use smart_data_models.Projector.Core.Marks.{
  can_commit_offsets, commit_at, commit_highest, maybe_commit,
}
use smart_data_models.Projector.Core.Recovery.{recover_at, recover_partition}

-- The persisted commit of the partition is there, and no lower.
abbrev HasReached : ProjectorStore → TopicPartition → ℕ → Type 0
HasReached s place n = (m : ℕ) × (get_committed_offset s place ≡ some m) × (n ≤ m)

not_past : (o : Option ℕ) (n : ℕ) → passes o n ≡ false → (m : ℕ) × (o ≡ some m) × (n ≤ m)
unfolding passes
not_past none n h = absurd (cc h)
not_past (some m) n h = (m, refl, ground (arith, h))

write-fine :
    (f : Env → ProjectorStore → Option String → ProjectorStore × Option String) (v : Env) (c : Core)
    → first_end c.disk ≡ none
    → (f v c.store none).1 ≡ none
    → write f v c
      ≡ (returned tt, record c { store = (f v c.store none).0; disk = later_ends c.disk })
unfolding write answer_of
write-fine f v c fine ok =
    let after = λ (s : ProjectorStore). record c { store = s; disk = later_ends c.disk } in
    ap (λ e. (answer_of (f v c.store e).1, after (f v c.store e).0)) fine
    ∙ ap (λ e. (answer_of e, after (f v c.store none).0)) ok

-- The state after a commit whose write succeeds.
committed : TopicPartition → ℕ → Core → Core
committed place offset c = record c {
  store = record c.store { commits = put c.store.commits place offset };
  disk = later_ends c.disk;
  offsets = advance_commit c.offsets place offset;
}

commit_at-fine :
    (place : TopicPartition) (offset : ℕ) (v : Env) (c : Core)
    → first_end c.disk ≡ none
    → commit_at place offset v c ≡ (returned tt, committed place offset c)
unfolding commit_at update ◌>>◌ ◌>>=◌ continue committed set_committed_offset
commit_at-fine place offset v c fine =
    let next = update (λ v c. record c { offsets = advance_commit c.offsets place offset }) in
    ap (λ (r : Answer Unit × Core). continue r.0 (λ _. next) v r.1)
      (write-fine (λ v s e. set_committed_offset s place offset e) v c fine refl)

get-committed :
    (place : TopicPartition) (offset : ℕ) (c : Core)
    → get_committed_offset (committed place offset c).store place ≡ some offset
unfolding committed get_committed_offset
get-committed place offset c =
    get-put c.store.commits place offset place
    ∙ if-true (some offset) (get c.store.commits place) (same_refl place)

-- The call has returned, and the persisted commit has reached the offset.
abbrev HasCommitted : TopicPartition → ℕ → Answer Unit × Core → Type 0
HasCommitted place n r = (r.0 ≡ returned tt) × HasReached r.1.store place n

commit_highest-reaches :
    (place : TopicPartition) (offset : ℕ) (v : Env) (c : Core)
    → first_end c.disk ≡ none
    → HasCommitted place offset (commit_highest place (some offset) v c)
unfolding commit_highest pure
commit_highest-reaches place offset v c fine =
    if-split (HasCommitted place offset) (passes (get_committed_offset c.store place) offset)
      (commit_at place offset v c) (pure tt v c)
      (λ _.
        subst (HasCommitted place offset) (sym (commit_at-fine place offset v c fine))
          (refl, (offset, get-committed place offset c, le_refl offset)))
      (λ h. (refl, not_past (get_committed_offset c.store place) offset h))

-- The end of the completed run is no lower than an offset up to which all are complete.
end_of_run :
    (done : List ℕ) (a n r : ℕ)
    → IsPrefixEnd a done r
    → ((o : ℕ) → a < o → o ≤ n → contains done o ≡ true)
    → n ≤ r
end_of_run done a n r h filled = elim (Bool-cases (leb n r)) [
  | inl at_most ↦ ground (arith, at_most)
  | inr past ↦
      let low = h.after in
      absurd (cc (h.maximal, filled (r + 1) (omega arith) (ground (arith, past))))
]

-- In the write mode ACTIVE, where the write succeeds: when all the offsets of a partition after the
-- tracker's commit up to `n` are complete, `_maybe_commit` returns and the persisted commit is at `n`
-- or above.
pub maybe_commit-reaches :
    (place : TopicPartition) (a n : ℕ) (v : Env) (c : Core)
    → can_commit_offsets c ≡ true
    → first_end c.disk ≡ none
    → get c.offsets.committed place ≡ some a
    → ((o : ℕ) → a < o → o ≤ n → contains (done_at c.offsets.completed place) o ≡ true)
    → ((maybe_commit place v c).0 ≡ returned tt)
      × ((m : ℕ) × (get_committed_offset (maybe_commit place v c).1.store place ≡ some m) × (n ≤ m))
unfolding maybe_commit
maybe_commit-reaches place a n v c open' fine at_a filled =
    let o = contiguous_commit_offset c.offsets place in
    subst (HasCommitted place n) (sym (if-true (commit_highest place o v c) (pure tt v c) open')) (
      go o (
        subst (λ k. IsHighest (done_at c.offsets.completed place) k o) at_a
          (contiguous_commit_offset-IsHighest c.offsets place)))
  where
    go :
        (o : Option ℕ)
        → IsHighest (done_at c.offsets.completed place) (some a) o
        → HasCommitted place n (commit_highest place o v c)
    go none h = absurd h
    go (some r) h =
        let (answer, (m, e, above)) = commit_highest-reaches place r v c fine in
        let reached = end_of_run (done_at c.offsets.completed place) a n r h filled in
        (answer, (m, e, omega arith))

-- What a restart knows of a partition: its commit, persisted and loaded, no lower than `a`, with a
-- completed row in the ledger for every offset after `a` up to it.
pub record IsLoaded (ledger : Dict String LedgerRow) (place : TopicPartition) (a last : ℕ)
    (r : Answer Unit × Core) : Type 0 where
  pub returns : r.0 ≡ returned tt
  pub persisted : get_committed_offset r.1.store place ≡ some last
  pub loaded : get r.1.offsets.committed place ≡ some last
  pub above : a ≤ last
  pub filled : (o : ℕ) → a < o → o ≤ last → has_completed ledger place o ≡ true

get-load_committed :
    (t : OffsetTracker) (place : TopicPartition) (last : ℕ)
    → get (load_committed t place last).committed place ≡ some last
unfolding load_committed
get-load_committed t place last =
    get-put t.committed place last place
    ∙ if-true (some last) (get t.committed place) (same_refl place)

stays : (a last : ℕ) → passes (some a) last ≡ false → a ≤ last → a ≡ last
unfolding passes
stays a last h above = ground (arith, h, above)

loaded_at : TopicPartition → ℕ → Core → Core
loaded_at place last c = record c { offsets = load_committed c.offsets place last }

recover_at-IsLoaded :
    (place : TopicPartition) (a last : ℕ) (v : Env) (c : Core)
    → first_end c.disk ≡ none
    → get_committed_offset c.store place ≡ some a
    → a ≤ last
    → ((o : ℕ) → a < o → o ≤ last → has_completed c.store.ledger place o ≡ true)
    → IsLoaded c.store.ledger place a last (recover_at place (some last) v c)
unfolding recover_at pure loaded_at committed
recover_at-IsLoaded place a last v c fine at_a above filled =
    if-split (IsLoaded c.store.ledger place a last)
      (passes (get_committed_offset c.store place) last)
      (write (λ v s e. set_committed_offset s place last e) v (loaded_at place last c))
      (pure tt v (loaded_at place last c))
      (λ _.
        subst (IsLoaded c.store.ledger place a last)
          (sym (
            write-fine (λ v s e. set_committed_offset s place last e) v (loaded_at place last c)
              fine (unfold set_committed_offset in refl)))
          (record {
            returns = refl;
            persisted = unfold set_committed_offset in get-committed place last c;
            loaded = get-load_committed c.offsets place last;
            above = above;
            filled = filled;
          }))
      (λ h. record {
        returns = refl;
        persisted = at_a ∙ ap some (stays a last (subst (λ o. passes o last ≡ false) at_a h) above);
        loaded = get-load_committed c.offsets place last;
        above = above;
        filled = filled;
      })

-- A restart on a partition whose commit was persisted at `a`, where the write succeeds, returns; it
-- loads into the tracker the commit that stands in the store after it, which is no lower than `a`; and
-- every offset after `a` up to it has a completed row of the partition in the ledger.
pub recover_partition-IsLoaded :
    (place : TopicPartition) (a : ℕ) (v : Env) (c : Core)
    → first_end c.disk ≡ none
    → get_committed_offset c.store place ≡ some a
    → (last : ℕ) × IsLoaded c.store.ledger place a last (recover_partition place v c)
unfolding recover_partition
recover_partition-IsLoaded place a v c fine at_a =
    let (last, e, above, filled) = rebuild_completed_offsets-IsRun c.store place a in
    let found = ap (rebuild_completed_offsets c.store place) at_a ∙ e in
    (
      last,
      subst (λ o. IsLoaded c.store.ledger place a last (recover_at place o v c)) (sym found)
          (recover_at-IsLoaded place a last v c fine at_a above filled),
    )
