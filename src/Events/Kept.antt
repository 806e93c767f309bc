-- ===== src/Events/Kept.antt =====
-- How long the event buffer keeps an event (`PutBufferedEvent`, `GetBufferedEvent`,
-- `ClearBufferedEventPlaintext` and `DeleteOldBufferedHashes` of store/sqlstore/store.go).
use zev_bot.Prelude.{ℕ, String, ◌≡◌, Option, none}
use mathlib.Core.Option
use zev_bot.Table.{Distinct, lookup}
use zev_bot.Sql.{Faults, Conn}
use zev_bot.Signal.{Bytes}
use zev_bot.AppState.{sync_key_id_discrete}
use zev_bot.Events.Buffers.{BufferDb, EventRow}

module _ {C : Type 0} (jid : String) (hash : Bytes) (f : Faults)
    (quiet : (n : ℕ) → f n ≡ none) where
  abbrev Event : Conn BufferDb C → Option EventRow → Type 0
  Event s r =
      (lookup sync_key_id_discrete (jid, hash) s.db.events ≡ r)
      × Distinct sync_key_id_discrete s.db.events
