-- ===== src/Tests/Settings.antt =====
-- The theorems on the settings of chats, at an empty table.
use zev_bot.Prelude.{none, [], refl, inr, arith}
use zev_bot.Sql.{Conn, ◌>>◌}
use zev_bot.Sql.Post.{Post}
use zev_bot.Chats.{ChatDb, from_unix, settings_of, put_muted_until, get_chat_settings}
use zev_bot.Chats.Muted.{Muted, row_of, get_chat_settings-put_muted_until}

abbrev no_settings : Conn ChatDb (Unit {0})
no_settings = record { db = []; mem = tt; clock = 0 }

get_chat_settings-put_muted_until_example :
    Post
      (λ settings c. Muted (settings_of (row_of "me" "1@s" no_settings.db)) (from_unix 60) settings)
      (λ c. Unit {0})
      ((put_muted_until "me" "1@s" (from_unix 60) >> get_chat_settings "me" "1@s")
        (λ n. none)
        no_settings)
get_chat_settings-put_muted_until_example =
    get_chat_settings-put_muted_until "me" "1@s" (from_unix 60) (λ n. none) no_settings
      (inr (inr (omega arith, refl)))
