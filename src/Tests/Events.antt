-- ===== src/Tests/Events.antt =====
-- The theorem on the event buffer, where the clean-up comes after 15 days.
use zev_bot.Prelude.{◌+◌, ◌*◌, ◌^◌, Option, none, [], ◌∷◌}
use zev_bot.Sql.{Faults, Conn}
use zev_bot.Signal.{Bytes}
use zev_bot.Chats.{Time, unix_epoch}
use zev_bot.Events.{BufferDb, BufferedEvent, put_buffered_event, clear_buffered_event_plaintext}

abbrev quiet : Faults
quiet n = none

abbrev hash : Bytes
hash = 1 ∷ 2 ∷ []

abbrev sent_at : Time
sent_at = record { seconds = unix_epoch + 100; nanos = 0 }

abbrev no_events : Conn BufferDb (Unit {0})
no_events = record { db = record { events = []; retries = [] }; mem = tt; clock = 0 }

abbrev kept : Option Bytes → BufferedEvent
kept p = record {
  plaintext = p;
  server_time = record { seconds = unix_epoch + 100; nanos = 0 };
  insert_time = record { seconds = unix_epoch; nanos = 5 * 10 ^ 6 };
}

abbrev put : Conn BufferDb (Unit {0})
put = (put_buffered_event "me" 5 hash hash sent_at quiet no_events).1

abbrev cleared : Conn BufferDb (Unit {0})
cleared = (clear_buffered_event_plaintext "me" hash quiet put).1
