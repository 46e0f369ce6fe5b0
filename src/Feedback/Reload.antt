-- ===== src/Feedback/Reload.antt =====
-- What a stored correction is once it is loaded.
use volunteer_training.Prelude.{none, [], String}
use volunteer_training.Prelude.Store.{Store}
use volunteer_training.Feedback.Correction.{
  CorrectionRecord, CorrectionKey, correction_key_eq, CorrectionRow,
}

module _ (table : Store CorrectionKey CorrectionRow) where
  open table use {Db, find, write, find_written}

  abbrev pub key_of : CorrectionRecord → String → CorrectionKey
  key_of r tenant = record { tenant_id = tenant; message_id = r.message_id }

  -- A record as it comes back: without its evidence and its events.
  abbrev pub reloaded : CorrectionRecord → String → String → CorrectionRecord
  reloaded r tenant id = record r {
    id = id;
    tenant_id = tenant;
    evidence = record { source = none; observed_at = none; corroboration_count = 0 };
    domain_events = [];
  }
