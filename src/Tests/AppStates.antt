-- ===== src/Tests/AppStates.antt =====
-- The theorems on app state and privacy tokens at small tables.
use zev_bot.Prelude.{
  zero, suc, ℕ, ◌≡◌, inr, refl, String, none, some, List, [], ◌∷◌, All, arith, string_discrete,
}
use zev_bot.Table.{lookup}
use zev_bot.Sql.{ok, Conn, Faults, sql_txn}
use zev_bot.Sql.Post.{Post}
use zev_bot.Jid.{Jid}
use zev_bot.Lid.{lid_of}
use zev_bot.Signal.{Bytes}
use zev_bot.Chats.{zero_time, pos}
use zev_bot.Tests.LidMaps.{wa}
use zev_bot.AppState.{
  SyncKey, Mutation, AppStateDb, put_app_state_mutation_macs, put_app_state_sync_key,
  sync_key_id_discrete,
}
use zev_bot.AppState.Macs.{Served, put_app_state_mutation_macs-Served}
use zev_bot.AppState.Keys.{put_app_state_sync_key-commutes}
use zev_bot.Tokens.{PrivacyToken, TokenDb, other_jid, put_privacy_tokens, get_privacy_token}
use zev_bot.Tokens.Newest.{get-put_privacy_tokens}

abbrev byte_run : ℕ → ℕ → Bytes
byte_run b zero = []
byte_run b (suc n) = b ∷ byte_run b n

abbrev two_macs : List Mutation
two_macs =
    record { index_mac = byte_run 1 32; value_mac = byte_run 2 32 }
    ∷ record { index_mac = byte_run 3 32; value_mac = byte_run 4 32 }
    ∷ []

abbrev one_mac : Conn AppStateDb (List String)
one_mac = record {
  db = record {
    sync_keys = [];
    versions = (("me", "regular"), (3, byte_run 0 128)) ∷ [];
    macs = (("me", "regular", 2, byte_run 1 32), byte_run 9 32) ∷ [];
  };
  mem = [];
  clock = 0;
}

abbrev quiet : Faults
quiet n = none

put_app_state_mutation_macs-Served_example :
    Post
      (λ u c. All (Served "me" "regular" 3 c) two_macs)
      (λ c. c.db ≡ one_mac.db)
      (put_app_state_mutation_macs "me" sql_txn "regular" 3 two_macs quiet one_mac)
put_app_state_mutation_macs-Served_example =
    put_app_state_mutation_macs-Served "me" "regular" 3 sql_txn two_macs quiet one_mac
      ((λ _ _. omega arith), tt)

abbrev early : SyncKey
early = record { data_bytes = 1 ∷ []; fingerprint = []; timestamp = pos 5 }

abbrev late : SyncKey
late = record { data_bytes = 2 ∷ []; fingerprint = []; timestamp = pos 7 }

put_app_state_sync_key-commutes_example :
    lookup sync_key_id_discrete
      ("me", 8 ∷ [])
      (put_app_state_sync_key "me"
        (8 ∷ [])
        late
        quiet
        (put_app_state_sync_key "me" (8 ∷ []) early quiet one_mac).1).1.db.sync_keys
    ≡ lookup sync_key_id_discrete
        ("me", 8 ∷ [])
        (put_app_state_sync_key "me"
          (8 ∷ [])
          early
          quiet
          (put_app_state_sync_key "me" (8 ∷ []) late quiet one_mac).1).1.db.sync_keys
put_app_state_sync_key-commutes_example =
    put_app_state_sync_key-commutes "me" (8 ∷ []) early late quiet one_mac ("me", 8 ∷ [])
      (λ e. ground (arith, e)) (λ n. refl)

abbrev friend : Jid
friend = record { user = "31"; device = 0; server = "s.whatsapp.net" }

abbrev friend_lid : Jid
friend_lid = record { user = "100"; device = 0; server = "lid" }

abbrev token : PrivacyToken
token = record {
  user = friend;
  token = 1 ∷ [];
  timestamp = record { seconds = 62135596900; nanos = 0 };
  sender_timestamp = zero_time;
}

abbrev tokens : Conn TokenDb (List String)
tokens = record { db = record { tokens = []; lid_map = ("100", "31") ∷ [] }; mem = []; clock = 0 }

get-put_privacy_tokens_example :
    (got : PrivacyToken) × ((get_privacy_token wa "me" friend_lid quiet
        (put_privacy_tokens wa "me" (token ∷ []) quiet tokens).1).0
      ≡ ok (some got))
    × (got.user ≡ friend_lid)
    × (got.token ≡ token.token)
    × (got.timestamp ≡ token.timestamp)
unfolding lookup other_jid string_discrete lid_of
get-put_privacy_tokens_example =
    get-put_privacy_tokens wa "me" token quiet tokens (λ n. refl) refl (refl, refl, tt)
      (λ x e. ground (arith, e)) (λ o e n x h. ground (arith, h)) friend_lid (inr refl)
