-- ===== src/Tokens/Store.antt =====
-- The table `privacy_tokens` and its methods of `SQLStore` (store/sqlstore/store.go). `jid` is the
-- device's own JID. Another's JID stands for its text, which is that of its user and its server.
use zev_bot.Prelude.{
  ℕ, suc, ◌-◌, String, Option, none, some, List, [], ◌∷◌, Bool, ◌&&◌, str_eq, length, if◌then◌else◌,
  string_discrete,
}
use mathlib.Core.Option
use zev_bot.Table.{Table, lookup, upsert, delete_where}
use zev_bot.Sql.{ok, err, driver, Prog, pure, query_or, exec, continue}
use zev_bot.Jid.{Jid, Types}
use zev_bot.Lid.{LidDb, lid_of, pn_of}
use zev_bot.Lid.Many.{jid_discrete}
use zev_bot.Signal.{Bytes}
use zev_bot.Chats.{Time, zero_time, time_eq, unix_epoch, ℤ, pos, negsuc, to_unix, from_unix}
use zev_bot.AppState.{less}

-- (our_jid, their_jid)
abbrev pub TokenId : Type 0
TokenId = String × Jid

unfoldable pub token_id_discrete : Discrete TokenId
token_id_discrete = hlevel (string_discrete, jid_discrete)

-- `store.PrivacyToken`
pub record PrivacyToken : Type 0 where
  pub user : Jid
  pub token : Bytes
  pub timestamp : Time
  pub sender_timestamp : Time

pub record TokenRow : Type 0 where
  pub token : Bytes
  pub timestamp : ℤ
  pub sender_timestamp : Option ℤ

pub record TokenDb : Type 0 where
  pub tokens : Table TokenId TokenRow
  pub lid_map : LidDb

-- `time.Unix(n, 0)`, from the year 1 on
abbrev pub unix_time : ℤ → Time
unix_time (pos n) = from_unix n
unix_time (negsuc n) = record { seconds = unix_epoch - suc n; nanos = 0 }

-- The arguments of the statement: a zero sender timestamp is NULL.
abbrev pub token_row : PrivacyToken → TokenRow
token_row t = record {
  token = t.token;
  timestamp = to_unix t.timestamp;
  sender_timestamp =
      if time_eq t.sender_timestamp zero_time then none else some (to_unix t.sender_timestamp);
}

abbrev pub coalesce : {A : Type 0} → Option A → Option A → Option A
coalesce none o = o
coalesce (some a) o = some a

-- `ON CONFLICT … DO UPDATE … WHERE EXCLUDED.timestamp >= privacy_tokens.timestamp`
unfoldable pub merged_token : Option TokenRow → TokenRow → TokenRow
merged_token none r = r
merged_token (some old) r =
    if less r.timestamp old.timestamp
    then old
    else record r { sender_timestamp = coalesce r.sender_timestamp old.sender_timestamp }

module _ (types : Types) where
  open types use {default_user_server, hidden_user_server}

  -- The JID of the same user on the other server: the CASE of the query.
  unfoldable pub other_jid : LidDb → Jid → Option Jid
  other_jid m user =
      if str_eq user.server hidden_user_server
      then Option.map (λ pn. record { user = pn; device = 0; server = default_user_server })
          (pn_of user.user m)
      else if str_eq user.server default_user_server
      then Option.map (λ lid. record { user = lid; device = 0; server = hidden_user_server })
          (lid_of user.user m)
      else some user

abbrev pub later_token : Option TokenRow → Option TokenRow → Option TokenRow
later_token none b = b
later_token (some a) none = some a
later_token (some a) (some b) = if less a.timestamp b.timestamp then some b else some a

abbrev pub sender_time : Option ℤ → Time
sender_time none = zero_time
sender_time (some n) = unix_time n

abbrev pub token_of : Jid → TokenRow → PrivacyToken
token_of user r = record {
  user = user;
  token = r.token;
  timestamp = unix_time r.timestamp;
  sender_timestamp = sender_time r.sender_timestamp;
}

module _ (types : Types) (jid : String) where
  open types use {to_non_ad}

  -- The rows of the statement, in order.
  unfoldable pub put_rows : List PrivacyToken → Table TokenId TokenRow → Table TokenId TokenRow
  unfolding merged_token
  put_rows [] t = t
  put_rows (x ∷ xs) t = put_rows xs (
      upsert token_id_discrete (jid, to_non_ad x.user)
        (merged_token (lookup token_id_discrete (jid, to_non_ad x.user) t) (token_row x)) t)

  abbrev pub row_at : Table TokenId TokenRow → Option Jid → Option TokenRow
  row_at t none = none
  row_at t (some j) = lookup token_id_discrete (jid, j) t

  -- The row of the user, or of the other JID if that is newer: `ORDER BY timestamp DESC LIMIT 1`. The
  -- database may choose either of two that are as new.
  unfoldable pub newest_token : TokenDb → Jid → Option TokenRow
  unfolding other_jid
  newest_token d user =
      later_token (row_at d.tokens (some user)) (row_at d.tokens (other_jid types d.lid_map user))

  -- Whether a row goes.
  abbrev pub expired : Time → TokenId → TokenRow → Bool
  expired cutoff k r = str_eq k.0 jid && less r.timestamp (to_unix cutoff)

  module _ {C : Type 0} where
    -- Without a token, the statement has no row and is a syntax error.
    unfoldable pub put_privacy_tokens : List PrivacyToken → Prog TokenDb C (Unit {0})
    unfolding put_rows
    put_privacy_tokens [] = exec (λ d. err (driver 0))
    put_privacy_tokens (x ∷ xs) = exec (λ d. ok (record d { tokens = put_rows (x ∷ xs) d.tokens }))

    unfoldable pub get_privacy_token : Jid → Prog TokenDb C (Option PrivacyToken)
    unfolding newest_token
    get_privacy_token user = query_or none (λ d.
        Option.map (λ r. some (token_of (to_non_ad user) r)) (newest_token d (to_non_ad user)))

    abbrev deleted_rows : ℕ → ℕ → Unit {0} → Prog TokenDb C ℕ
    deleted_rows before after u = pure (before - after)

    -- The result is the count of the rows that are deleted.
    unfoldable pub delete_expired_privacy_tokens : Time → Prog TokenDb C ℕ
    delete_expired_privacy_tokens cutoff f s =
        let (r, c) =
          exec (λ d. ok (record d { tokens = delete_where (expired cutoff) d.tokens })) f s in
        continue r (deleted_rows (length s.db.tokens) (length c.db.tokens)) f c
