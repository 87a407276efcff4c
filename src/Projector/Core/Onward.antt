-- ===== src/Projector/Core/Onward.antt =====
-- That every call of Visualize/integration/projector/core.py moves the store only on.
use smart_data_models.Prelude.{
  ℕ, ◌≤◌, String, true, Option, none, some, List, [], ◌∷◌, ◌≡◌, refl, arith, if-split, Dict,
  string_key, get, put, TopicPartition, topic_partition_key, Onward, Onward-refl, Onward-put,
}
use native.Mathlib.Nat.{le_refl}
use smart_data_models.Projector.Event.{BufferedEvent}
use smart_data_models.Projector.Tables.{
  Status, stale_skipped, sim_time_regression, quarantined, LedgerRow, ProjectorStore, text_pair_key,
}
use smart_data_models.Projector.Store.{set_committed_offset, get_committed_offset}
use smart_data_models.Projector.Store.Upserts.{
  IsNotOlder, IsNotOlder-refl, IsSameEvent, IsSameEvent-refl, IsOnward, IsOnward-refl,
}
use smart_data_models.Projector.OffsetTracker.{
  passes, mark_completed, contiguous_commit_offset, advance_commit,
}
use smart_data_models.Projector.NodeBuffer.{NodeBuffer}
use smart_data_models.Projector.Core.State.{
  Core, Env, Answer, pure, update, write, first_end, place_of,
}
use smart_data_models.Projector.Core.Marks.{
  can_commit_offsets, commit_at, commit_highest, maybe_commit, mark_done, finish, mark_as,
  mark_stale, mark_sim_time_regression, mark_quarantine, mark_fence_skipped,
}
use smart_data_models.Projector.Core.Screen.{
  Screening, screening, ledger_row, fresh, known, mismatch, mark_all, screen_as, screen_all,
  drop_regressed, commit_places, pop_buffer,
}
use smart_data_models.Projector.Core.Advances.{
  Keeps, Keeps-pure, Keeps-update, Keeps-modify, Keeps-bind, Keeps-then, holds-then, onward,
  IsSteady, IsSteady-refl, IsSteady-trans, IsSteady-quiet, steady, Advances, advances_rules,
}

-- A store with the same ledger and entity states, and commits that only moved on.
same_tables :
    (s : ProjectorStore) (commits : Dict TopicPartition ℕ)
    → Onward ◌≤◌ s.commits commits
    → IsOnward s (record s { commits = commits })
same_tables s commits h = record {
  ledger = Onward-refl IsSameEvent s.ledger IsSameEvent-refl;
  entities = Onward-refl IsNotOlder s.entities IsNotOlder-refl;
  commits = h;
}

above : (o : Option ℕ) (offset : ℕ) → passes o offset ≡ true → (n : ℕ) → o ≡ some n → n ≤ offset
unfolding passes
above none offset h n e = absurd (cc e)
above (some m) offset h n e = ground (arith, h, e)

pub set_committed_offset-IsOnward :
    (s : ProjectorStore) (place : TopicPartition) (offset : ℕ) (e : Option String)
    → passes (get_committed_offset s place) offset ≡ true
    → IsOnward s (set_committed_offset s place offset e).0
unfolding set_committed_offset get_committed_offset
set_committed_offset-IsOnward s place offset (some e) h = IsOnward-refl s
set_committed_offset-IsOnward s place offset none h =
    same_tables s (put s.commits place offset) (
      Onward-put ◌≤◌ s.commits place offset (λ n. le_refl n) (above (get s.commits place) offset h))

commit_highest_onward :
    (place : TopicPartition) (o : Option ℕ) (v : Env) (c : Core)
    → IsOnward c.store (commit_highest place o v c).1.store
unfolding commit_highest
commit_highest_onward place none v c = (Keeps-pure {r = onward} tt).at v c
commit_highest_onward place (some offset) v c =
    if-split (λ (r : Answer Unit × Core). IsOnward c.store r.1.store)
      (passes (get_committed_offset c.store place) offset) (commit_at place offset v c)
      (pure tt v c)
      (λ h.
        unfold commit_at in
        holds-then {r = onward} (write (λ v s e. set_committed_offset s place offset e))
          (update (λ v c. record c { offsets = advance_commit c.offsets place offset })) v c c
          (unfold write in set_committed_offset-IsOnward c.store place offset (first_end c.disk) h)
          (Keeps-update {r = onward}
            (λ v c. record c { offsets = advance_commit c.offsets place offset })
            (λ v c. IsOnward-refl c.store)))
      (λ _. (Keeps-pure {r = onward} tt).at v c)

pub maybe_commit-Advances : (place : TopicPartition) → Advances (maybe_commit place)
unfolding maybe_commit
maybe_commit-Advances place = record {
  at = λ v c.
      let o = contiguous_commit_offset c.offsets place in
      if-split (λ (r : Answer Unit × Core). IsSteady c r.1) (can_commit_offsets c)
        (commit_highest place o v c) (pure tt v c)
        (λ open'. record {
          onward = commit_highest_onward place o v c;
          held = λ shut. absurd (cc (open', shut));
        })
        (λ _. (Keeps-pure {r = steady} tt).at v c);
}

pub mark_done-IsSteady :
    (place : TopicPartition) (offset : ℕ) (c : Core) → IsSteady c (mark_done place offset c)
unfolding mark_done
mark_done-IsSteady place offset c =
    if-split (IsSteady c) (can_commit_offsets c)
      (record c { offsets = mark_completed c.offsets place offset }) c
      (λ open'. IsSteady-quiet refl refl (λ shut. absurd (cc (open', shut)))) (λ _. IsSteady-refl c)

pub finish-Advances : (place : TopicPartition) (offset : ℕ) → Advances (finish place offset)
unfolding finish
finish-Advances place offset =
    Keeps-then (update (λ v c. mark_done place offset c)) (maybe_commit place)
      (Keeps-update (λ v c. mark_done place offset c) (λ v c. mark_done-IsSteady place offset c))
      (maybe_commit-Advances place)

pub ruleset mark_rules = (advances_rules, finish-Advances)

mark_as-Advances : (status : Status) (be : BufferedEvent) → Advances (mark_as status be)
unfolding mark_as
mark_as-Advances status be = search mark_rules

pub mark_fence_skipped-Advances : (be : BufferedEvent) → Advances (mark_fence_skipped be)
unfolding mark_fence_skipped
mark_fence_skipped-Advances be = search mark_rules

pub mark_stale-Advances : (be : BufferedEvent) → Advances (mark_stale be)
unfolding mark_stale
mark_stale-Advances be = mark_as-Advances stale_skipped be

pub mark_sim_time_regression-Advances :
    (be : BufferedEvent) → Advances (mark_sim_time_regression be)
unfolding mark_sim_time_regression
mark_sim_time_regression-Advances be = mark_as-Advances sim_time_regression be

pub mark_quarantine-Advances : (be : BufferedEvent) → Advances (mark_quarantine be)
unfolding mark_quarantine
mark_quarantine-Advances be = mark_as-Advances quarantined be

pub mark_all-IsSteady : (bes : List BufferedEvent) (c : Core) → IsSteady c (mark_all bes c)
unfolding mark_all
mark_all-IsSteady [] c = IsSteady-refl c
mark_all-IsSteady (be ∷ bes) c =
    IsSteady-trans (mark_done-IsSteady (place_of be) be.offset c)
      (mark_all-IsSteady bes (mark_done (place_of be) be.offset c))

pub ruleset core_rules = (
  mark_rules, Keeps-update, Keeps-modify, maybe_commit-Advances, mark_done-IsSteady,
  mark_all-IsSteady, IsSteady-quiet,
)

screen_as-Advances : (found : Screening) (be : BufferedEvent) → Advances (screen_as found be)
unfolding screen_as
screen_as-Advances fresh be = search core_rules
screen_as-Advances known be = search core_rules
screen_as-Advances mismatch be = search core_rules

pub screen_all-Advances :
    (ledger : Dict String LedgerRow) (bes : List BufferedEvent) → Advances (screen_all ledger bes)
unfolding screen_all
screen_all-Advances ledger [] = search core_rules
screen_all-Advances ledger (be ∷ bes) =
    Keeps-bind (screen_as (screening (ledger_row ledger be) be) be) _
      (screen_as-Advances (screening (ledger_row ledger be) be) be)
      (λ first.
        Keeps-bind (screen_all ledger bes) _ (screen_all-Advances ledger bes)
          (λ rest. search core_rules))

pub drop_regressed-Advances :
    (b : NodeBuffer) (bes : List BufferedEvent) → Advances (drop_regressed b bes)
unfolding drop_regressed
drop_regressed-Advances b [] = search core_rules
drop_regressed-Advances b (be ∷ bes) = search core_rules

pub commit_places-Advances : (bes : List BufferedEvent) → Advances (commit_places bes)
unfolding commit_places
commit_places-Advances bes = search core_rules

pub pop_buffer-Advances : (b : NodeBuffer) → Advances (pop_buffer b)
unfolding pop_buffer
pop_buffer-Advances b = Keeps-update _ (λ v c. IsSteady-quiet refl refl (λ _. refl))
