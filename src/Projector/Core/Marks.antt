-- ===== src/Projector/Core/Marks.antt =====
-- Visualize/integration/projector/core.py: the commit of a partition, and the records that end without
-- a write to Orion (`_mark_stale` and the others).
use smart_data_models.Prelude.{
  ℕ, Bool, true, false, Option, none, some, [], ◌∷◌, if◌then◌else◌, string_key, ◌==◌,
  TopicPartition, topic_partition_key,
}
use smart_data_models.Projector.Event.{BufferedEvent}
use smart_data_models.Projector.Tables.{
  Status, stale_skipped, fence_skipped, sim_time_regression, quarantined, LedgerRow,
}
use smart_data_models.Projector.Store.{set_committed_offset, get_committed_offset}
use smart_data_models.Projector.OffsetTracker.{
  mark_completed, contiguous_commit_offset, passes, advance_commit,
}
use smart_data_models.Projector.Core.State.{
  Core, WriteMode, active, armed, disabled, Call, pure, update, ◌>>◌, write, apply_batch, place_of,
}

abbrev pub is_active : WriteMode → Bool
is_active active = true
is_active armed = false
is_active disabled = false

abbrev pub is_armed : WriteMode → Bool
is_armed armed = true
is_armed active = false
is_armed disabled = false

-- `write_mode == ACTIVE`
unfoldable pub can_commit_offsets : Core → Bool
can_commit_offsets c = is_active c.write_mode

unfoldable pub commit_at : TopicPartition → ℕ → Call Unit
commit_at place offset =
    write (λ v s e. set_committed_offset s place offset e)
    >> update (λ v c. record c { offsets = advance_commit c.offsets place offset })

-- The write is left out where the persisted commit is there already.
unfoldable pub commit_highest : TopicPartition → Option ℕ → Call Unit
commit_highest place none v c = pure tt v c
commit_highest place (some offset) v c =
    if passes (get_committed_offset c.store place) offset
    then commit_at place offset v c
    else pure tt v c

unfoldable pub maybe_commit : TopicPartition → Call Unit
maybe_commit place v c =
    if can_commit_offsets c
    then commit_highest place (contiguous_commit_offset c.offsets place) v c
    else pure tt v c

-- `if self._can_commit_offsets(): self.offsets.mark_completed(...)`
unfoldable pub mark_done : TopicPartition → ℕ → Core → Core
mark_done place offset c =
    if can_commit_offsets c then record c { offsets = mark_completed c.offsets place offset } else c

unfoldable pub finish : TopicPartition → ℕ → Call Unit
finish place offset = update (λ v c. mark_done place offset c) >> maybe_commit place

-- The row of an event that ends with the status.
unfoldable pub row_of : BufferedEvent → Status → ℕ → LedgerRow
row_of be status now = record {
  event_id = be.event.event_id;
  place = place_of be;
  offset = be.offset;
  simulation_run_id = be.event.simulation_run_id;
  cycle_sequence = be.event.cycle_sequence;
  entity_id = be.event.entity_id;
  replacement_event_id = none;
  status = status;
  payload_hash = be.event.payload_hash;
  created_at = now;
  completed_at = some now;
}

unfoldable pub mark_as : Status → BufferedEvent → Call Unit
mark_as status be =
    apply_batch (λ now. row_of be status now ∷ []) (λ _. []) >> finish (place_of be) be.offset

unfoldable pub mark_stale : BufferedEvent → Call Unit
mark_stale be = mark_as stale_skipped be

unfoldable pub mark_sim_time_regression : BufferedEvent → Call Unit
mark_sim_time_regression be = mark_as sim_time_regression be

unfoldable pub mark_quarantine : BufferedEvent → Call Unit
mark_quarantine be = mark_as quarantined be

-- `payload_hash or event_id`
unfoldable pub fence_row : BufferedEvent → ℕ → LedgerRow
fence_row be now = record (row_of be fence_skipped now) {
  payload_hash = if be.event.payload_hash == "" then be.event.event_id else be.event.payload_hash;
}

unfoldable pub mark_fence_skipped : BufferedEvent → Call Unit
mark_fence_skipped be =
    apply_batch (λ now. fence_row be now ∷ []) (λ _. []) >> finish (place_of be) be.offset
