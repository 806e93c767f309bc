-- ===== src/Signal/Tables.antt =====
-- The tables `identity_keys`, `sessions` and `sender_keys`, whose first key column is the device's own
-- JID.
use zev_bot.Prelude.{ℕ, String, List, string_discrete, ℕ_discrete}
use zev_bot.Table.{Table}

abbrev pub Bytes : Type 0
Bytes = List ℕ

-- (our_jid, their_id)
abbrev pub Key : Type 0
Key = String × String

-- (our_jid, chat_id, sender_id)
abbrev pub SenderKeyId : Type 0
SenderKeyId = String × String × String

unfoldable pub key_discrete : Discrete Key
key_discrete = hlevel string_discrete

unfoldable pub sender_key_id_discrete : Discrete SenderKeyId
sender_key_id_discrete = hlevel string_discrete

unfoldable pub bytes_discrete : Discrete Bytes
bytes_discrete = hlevel ℕ_discrete

pub record SignalDb : Type 0 where
  pub identity_keys : Table Key Bytes
  pub sessions : Table Key Bytes
  pub sender_keys : Table SenderKeyId Bytes
