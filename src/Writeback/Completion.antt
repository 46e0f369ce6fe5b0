-- ===== src/Writeback/Completion.antt =====
-- The service while every write of the database happens.
use volunteer_training.Prelude.Json.{Json}
use volunteer_training.Prelude.Store.{Store}
use volunteer_training.Writeback.Service.{message_key_eq}
