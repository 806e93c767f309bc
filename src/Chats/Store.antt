-- ===== src/Chats/Store.antt =====
-- The table `chat_settings` and `SQLStore`'s methods on it (store/sqlstore/store.go). `jid` is the
-- device's own JID; a JID stands for its text.
use zev_bot.Prelude.{
  ℕ, zero, suc, ◌+◌, ◌-◌, String, Option, none, some, Bool, true, false, ◌&&◌, ◌==◌, leb,
  if◌then◌else◌, value_or,
}
use mathlib.Core.Option
use zev_bot.Table.{Table, lookup, upsert}
use zev_bot.Sql.{ok, Prog, query_or, exec, pure, ◌>>=◌}
use zev_bot.Signal.{Key, key_discrete}

-- `time.Time`, from the year 1 on: the seconds since its start, and the nanoseconds.
pub record Time : Type 0 where
  pub seconds : ℕ
  pub nanos : ℕ

abbrev pub zero_time : Time
zero_time = record { seconds = 0; nanos = 0 }

-- The seconds from the start of the year 1 to that of 1970.
abbrev pub unix_epoch : ℕ
unix_epoch = 62135596800

-- `store.MutedForever`, the last nanosecond of the year 9999
abbrev pub muted_forever : Time
muted_forever = record { seconds = 315537897599; nanos = 999999999 }

-- A signed 64-bit integer of the table: `negsuc n` is -(n + 1).
pub data ℤ : Type 0 where
  pos : ℕ → ℤ
  negsuc : ℕ → ℤ

-- `t.Equal(u)`
abbrev pub time_eq : Time → Time → Bool
time_eq t u = t.seconds == u.seconds && t.nanos == u.nanos

-- `t.Unix()`
unfoldable pub to_unix : Time → ℤ
to_unix t =
    if leb unix_epoch t.seconds
    then pos (t.seconds - unix_epoch)
    else negsuc (unix_epoch - t.seconds - 1)

-- `time.Unix(n, 0)`
abbrev pub from_unix : ℕ → Time
from_unix n = record { seconds = n + unix_epoch; nanos = 0 }

unfoldable pub encode_muted : Time → ℤ
unfolding to_unix
encode_muted t =
    if time_eq t muted_forever then negsuc 0 else (if time_eq t zero_time then pos 0 else to_unix t)

unfoldable pub decode_muted : ℤ → Time
decode_muted (negsuc n) = muted_forever
decode_muted (pos zero) = zero_time
decode_muted (pos (suc n)) = from_unix (suc n)

pub record Setting : Type 0 where
  pub muted_until : ℤ
  pub pinned : Bool
  pub archived : Bool

abbrev pub ChatDb : Type 0
ChatDb = Table Key Setting

-- The defaults of the columns.
abbrev pub default_setting : Setting
default_setting = record { muted_until = pos 0; pinned = false; archived = false }

-- `types.LocalChatSettings`
pub record LocalChatSettings : Type 0 where
  pub found : Bool
  pub muted_until : Time
  pub pinned : Bool
  pub archived : Bool

unfoldable pub settings_of : Option Setting → LocalChatSettings
unfolding decode_muted
settings_of none = record {
  found = false;
  muted_until = zero_time;
  pinned = false;
  archived = false;
}
settings_of (some r) = record {
  found = true;
  muted_until = decode_muted r.muted_until;
  pinned = r.pinned;
  archived = r.archived;
}

-- `putChatSettingQuery`, with the column that it sets
unfoldable pub put_setting : Key → (Setting → Setting) → ChatDb → ChatDb
put_setting k g t = upsert key_discrete k (g (value_or default_setting (lookup key_discrete k t))) t

module _ {C : Type 0} (jid : String) where
  unfoldable pub put_muted_until : String → Time → Prog ChatDb C (Unit {0})
  put_muted_until chat t =
      exec (λ d. ok (put_setting (jid, chat) (λ r. record r { muted_until = encode_muted t }) d))

  unfoldable pub put_pinned : String → Bool → Prog ChatDb C (Unit {0})
  put_pinned chat pinned =
      exec (λ d. ok (put_setting (jid, chat) (λ r. record r { pinned = pinned }) d))

  unfoldable pub put_archived : String → Bool → Prog ChatDb C (Unit {0})
  put_archived chat archived =
      exec (λ d. ok (put_setting (jid, chat) (λ r. record r { archived = archived }) d))

  unfoldable pub get_row : String → Prog ChatDb C (Option Setting)
  unfolding query_or
  get_row chat = query_or none (λ (d : ChatDb). Option.map some (lookup key_discrete (jid, chat) d))

  unfoldable pub get_chat_settings : String → Prog ChatDb C LocalChatSettings
  unfolding get_row settings_of
  get_chat_settings chat = get_row chat >>= λ row. pure (settings_of row)
