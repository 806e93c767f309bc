-- ===== src/Events/Buffers.antt =====
-- The tables `event_buffer` and `retry_buffer` and their methods of `SQLStore`
-- (store/sqlstore/store.go). `jid` is the device's own JID; `now` is the time in milliseconds since the
-- start of 1970.
use zev_bot.Prelude.{
  ℕ, ◌+◌, ◌*◌, ◌/◌, ◌%◌, ◌^◌, String, Option, none, some, [], ◌∷◌, ◌&&◌, ◌||◌, ltb, str_eq,
  string_discrete, if◌then◌else◌,
}
use mathlib.Core.Option
use zev_bot.Table.{Table, lookup, upsert, delete_where}
use zev_bot.Sql.{Result, ok, err, constraint, Prog, query, query_or, exec, one_row, Txn}
use zev_bot.Jid.{Jid}
use zev_bot.Lid.Many.{jid_discrete}
use zev_bot.Signal.{Bytes}
use zev_bot.Chats.{Time, unix_epoch, ℤ, to_unix}
use zev_bot.AppState.{SyncKeyId, sync_key_id_discrete}
use zev_bot.Tokens.{unix_time}
use zev_bot.Events.Secrets.{jid_eq}

-- (our_jid, ciphertext_hash)
abbrev pub EventId : Type 0
EventId = SyncKeyId

pub record EventRow : Type 0 where
  pub plaintext : Option Bytes
  pub server_timestamp : ℤ
  pub insert_timestamp : ℕ

-- `store.BufferedEvent`
pub record BufferedEvent : Type 0 where
  pub plaintext : Option Bytes
  pub server_time : Time
  pub insert_time : Time

-- (our_jid, chat_jid, message_id)
abbrev pub RetryId : Type 0
RetryId = String × Jid × String

unfoldable pub retry_id_discrete : Discrete RetryId
retry_id_discrete = hlevel (string_discrete, jid_discrete)

pub record RetryRow : Type 0 where
  pub format : String
  pub plaintext : Bytes
  pub timestamp : ℕ

pub record BufferDb : Type 0 where
  pub events : Table EventId EventRow
  pub retries : Table RetryId RetryRow

-- `time.UnixMilli(n)`
abbrev pub unix_milli : ℕ → Time
unix_milli n = record { seconds = n / 1000 + unix_epoch; nanos = n % 1000 * 10 ^ 6 }

abbrev pub event_of : EventRow → BufferedEvent
event_of r = record {
  plaintext = r.plaintext;
  server_time = unix_time r.server_timestamp;
  insert_time = unix_milli r.insert_timestamp;
}

-- The days that a buffer keeps, in milliseconds.
abbrev pub days : ℕ → ℕ
days n = n * 24 * 3600 * 1000

unfoldable pub insert_event : EventId → EventRow → BufferDb → Result BufferDb
insert_event k r d = elim (lookup sync_key_id_discrete k d.events) [
  | some old ↦ err constraint
  | none ↦ ok (record d { events = upsert sync_key_id_discrete k r d.events })
]

unfoldable pub clear_plaintext : EventId → Table EventId EventRow → Table EventId EventRow
clear_plaintext k t = elim (lookup sync_key_id_discrete k t) [
  | none ↦ t
  | some r ↦ upsert sync_key_id_discrete k (record r { plaintext = none }) t
]

module _ (jid : String) where
  -- A row of the chat, or of its other JID: the database may choose either.
  unfoldable pub find_retry : Jid → Jid → String → Table RetryId RetryRow → Option RetryRow
  find_retry chat alt id [] = none
  find_retry chat alt id ((k, r) ∷ t) =
      let rest = find_retry chat alt id t in
      if str_eq k.0 jid && (jid_eq k.1 chat || jid_eq k.1 alt) && str_eq k.2 id
      then some r
      else rest

module _ {C : Type 0} where
  module _ (jid : String) where
    unfoldable pub get_buffered_event : Bytes → Prog BufferDb C (Option BufferedEvent)
    get_buffered_event hash = query_or none (λ d.
        Option.map (λ r. some (event_of r)) (lookup sync_key_id_discrete (jid, hash) d.events))

    unfoldable pub put_buffered_event : ℕ → Bytes → Bytes → Time → Prog BufferDb C (Unit {0})
    unfolding insert_event
    put_buffered_event now hash plaintext server_timestamp = exec (
        insert_event (jid, hash)
          (record {
            plaintext = some plaintext;
            server_timestamp = to_unix server_timestamp;
            insert_timestamp = now;
          }))

    unfoldable pub clear_buffered_event_plaintext : Bytes → Prog BufferDb C (Unit {0})
    unfolding clear_plaintext
    clear_buffered_event_plaintext hash =
        exec (λ d. ok (record d { events = clear_plaintext (jid, hash) d.events }))

    -- A message that is not there is an error here.
    unfoldable pub get_outgoing_event : Jid → Jid → String → Prog BufferDb C (String × Bytes)
    unfolding find_retry
    get_outgoing_event chat alt id = query (λ d.
        one_row (Option.map (λ r. (r.format, r.plaintext)) (find_retry jid chat alt id d.retries)))

    unfoldable pub add_outgoing_event :
        ℕ → Jid → String → String → Bytes → Prog BufferDb C (Unit {0})
    add_outgoing_event now chat id format plaintext = exec (λ d. ok (record d {
      retries =
          upsert retry_id_discrete (jid, chat, id)
            (record { format = format; plaintext = plaintext; timestamp = now }) d.retries;
    }))

    -- `timestamp < now - 7 days`
    unfoldable pub delete_old_outgoing_events : ℕ → Prog BufferDb C (Unit {0})
    delete_old_outgoing_events now = exec (λ d. ok (record d {
      retries = delete_where (λ k r. str_eq k.0 jid && ltb (r.timestamp + days 7) now) d.retries;
    }))

  -- `insert_timestamp < now - 14 days`, for the rows of every device
  unfoldable pub delete_old_buffered_hashes : ℕ → Prog BufferDb C (Unit {0})
  delete_old_buffered_hashes now = exec (λ d.
      ok (record d {
        events = delete_where (λ k r. ltb (r.insert_timestamp + days 14) now) d.events;
      }))

  abbrev pub do_decryption_txn :
      Txn BufferDb C → Prog BufferDb C (Unit {0}) → Prog BufferDb C (Unit {0})
  do_decryption_txn txn fn = txn.run fn
