-- ===== src/Events/Secrets.antt =====
-- The tables `message_secrets` and `nct_salt` and their methods of `SQLStore` (store/sqlstore/store.go).
-- `jid` is the device's own JID. Another's JID stands for its text.
use zev_bot.Prelude.{
  String, Option, none, some, List, [], ◌∷◌, Bool, true, false, ◌&&◌, ◌||◌, ite, str_eq,
  string_discrete, if◌then◌else◌,
}
use mathlib.Core.Option
use zev_bot.Table.{Table, lookup, upsert, delete}
use zev_bot.Sql.{ok, Prog, pure, query_or, exec, ◌>>◌, Txn}
use zev_bot.Jid.{Jid, Types, empty_jid}
use zev_bot.Lid.{LidDb}
use zev_bot.Lid.Many.{jid_discrete}
use zev_bot.Signal.{Bytes}
use zev_bot.Tokens.{other_jid}

-- (our_jid, chat_jid, sender_jid, message_id)
abbrev pub SecretId : Type 0
SecretId = String × Jid × Jid × String

unfoldable pub secret_id_discrete : Discrete SecretId
secret_id_discrete = hlevel (string_discrete, jid_discrete)

-- `store.MessageSecretInsert`
pub record MessageSecretInsert : Type 0 where
  pub chat : Jid
  pub sender : Jid
  pub id : String
  pub secret : Bytes

pub record SecretDb : Type 0 where
  pub secrets : Table SecretId Bytes
  pub salts : Table String Bytes
  pub lid_map : LidDb

-- `INSERT … ON CONFLICT DO NOTHING`
unfoldable pub insert_new : SecretId → Bytes → Table SecretId Bytes → Table SecretId Bytes
insert_new k secret t = elim (lookup secret_id_discrete k t) [
  | some old ↦ t
  | none ↦ upsert secret_id_discrete k secret t
]

abbrev pub jid_eq : Jid → Jid → Bool
jid_eq a b = ite (jid_discrete a b) true false

module _ (types : Types) (jid : String) where
  open types use {to_non_ad}

  -- `chat_jid=$2 OR chat_jid=(CASE …)`
  unfoldable pub same_user : LidDb → Jid → Jid → Bool
  same_user m wanted stored =
      jid_eq stored wanted
      || elim (other_jid types m wanted) [ none ↦ false | some o ↦ jid_eq stored o ]

  -- A row that the query matches, and its sender: the database may choose any.
  unfoldable pub find_secret :
      LidDb → Jid → Jid → String → Table SecretId Bytes → Option (Bytes × Jid)
  unfolding same_user
  find_secret m chat sender id [] = none
  find_secret m chat sender id ((k, v) ∷ t) =
      let rest = find_secret m chat sender id t in
      if str_eq k.0 jid && same_user m chat k.1 && str_eq k.3 id && same_user m sender k.2
      then some (v, k.2)
      else rest

  module _ {C : Type 0} where
    unfoldable pub put_message_secret : Jid → Jid → String → Bytes → Prog SecretDb C (Unit {0})
    unfolding insert_new
    put_message_secret chat sender id secret = exec (λ d. ok (record d {
      secrets = insert_new (jid, to_non_ad chat, to_non_ad sender, id) secret d.secrets;
    }))

    unfoldable pub put_each_secret : List MessageSecretInsert → Prog SecretDb C (Unit {0})
    unfolding put_message_secret
    put_each_secret [] = pure tt
    put_each_secret (x ∷ xs) = do
      put_message_secret x.chat x.sender x.id x.secret
      put_each_secret xs

    unfoldable pub put_message_secrets :
        Txn SecretDb C → List MessageSecretInsert → Prog SecretDb C (Unit {0})
    unfolding put_each_secret
    put_message_secrets txn [] = pure tt
    put_message_secrets txn (x ∷ xs) = txn.run (put_each_secret (x ∷ xs))

    unfoldable pub get_message_secret : Jid → Jid → String → Prog SecretDb C (Option Bytes × Jid)
    unfolding find_secret
    get_message_secret chat sender id =
        query_or (none, empty_jid)
          (λ d.
            Option.map (λ row. (some row.0, row.1))
              (find_secret d.lid_map (to_non_ad chat) (to_non_ad sender) id d.secrets))

module _ {C : Type 0} (jid : String) where
  unfoldable pub put_nct_salt : Bytes → Prog SecretDb C (Unit {0})
  put_nct_salt salt = exec (λ d. ok (record d { salts = upsert string_discrete jid salt d.salts }))

  unfoldable pub get_nct_salt : Prog SecretDb C (Option Bytes)
  get_nct_salt = query_or none (λ d. Option.map some (lookup string_discrete jid d.salts))

  unfoldable pub delete_nct_salt : Prog SecretDb C (Unit {0})
  delete_nct_salt = exec (λ d. ok (record d { salts = delete string_discrete jid d.salts }))
