-- ===== src/Chats/Muted.antt =====
-- `PutMutedUntil` and `GetChatSettings` of store/sqlstore/store.go: which times come back.
use zev_bot.Prelude.{
  ℕ, zero, suc, ◌-◌, ◌<◌, String, ◌≡◌, ◌⊎◌, inl, inr, refl, subst, sym, ap, ◌∙◌, Option, none, some,
  true, arith, value_or,
}
use mathlib.Core.Option
use zev_bot.Table.{lookup, lookup-upsert}
use zev_bot.Sql.{ok, Conn, Faults, ◌>>◌, pure}
use zev_bot.Sql.Post.{Post, bind-Post, exec-Post, query_or-Post}
use zev_bot.Signal.{key_discrete}
use zev_bot.Chats.Store.{
  Time, zero_time, unix_epoch, muted_forever, ℤ, pos, negsuc, to_unix, from_unix, encode_muted,
  decode_muted, Setting, ChatDb, default_setting, LocalChatSettings, settings_of, put_setting,
  put_muted_until, get_row, get_chat_settings,
}

-- A time that the table can hold: none, forever, or a whole second after the start of 1970.
abbrev pub Storable : Time → Type 0
Storable t = (t ≡ zero_time) ⊎ (t ≡ muted_forever) ⊎ ((unix_epoch < t.seconds) × (t.nanos ≡ 0))

decode_pos : (n : ℕ) → 0 < n → decode_muted (pos n) ≡ from_unix n
unfolding decode_muted
decode_pos zero p = ground (arith, p)
decode_pos (suc n) p = refl

encode_after :
    (t : Time)
    → unix_epoch < t.seconds
    → t.nanos ≡ 0
    → encode_muted t ≡ pos (t.seconds - unix_epoch)
unfolding encode_muted to_unix
encode_after t p q = ground (arith, p, q)

encode_before :
    (t : Time)
    → 0 < t.seconds
    → t.seconds < unix_epoch
    → encode_muted t ≡ negsuc (unix_epoch - t.seconds - 1)
unfolding encode_muted to_unix
encode_before t p q = ground (arith, p, q)

from_unix_after :
    (t : Time) → unix_epoch < t.seconds → t.nanos ≡ 0 → from_unix (t.seconds - unix_epoch) ≡ t
from_unix_after t p q = ground (arith, p, q)

decode_muted-encode_muted : (t : Time) → Storable t → decode_muted (encode_muted t) ≡ t
unfolding encode_muted decode_muted to_unix
decode_muted-encode_muted t (inl e) = subst (λ u. decode_muted (encode_muted u) ≡ u) (sym e) refl
decode_muted-encode_muted t (inr (inl e)) =
    subst (λ u. decode_muted (encode_muted u) ≡ u) (sym e) refl
decode_muted-encode_muted t (inr (inr (p, q))) =
    ap decode_muted (encode_after t p q)
    ∙ decode_pos (t.seconds - unix_epoch) (omega (arith, p))
    ∙ from_unix_after t p q

decode_muted_before :
    (t : Time)
    → 0 < t.seconds
    → t.seconds < unix_epoch
    → decode_muted (encode_muted t) ≡ muted_forever
unfolding decode_muted
decode_muted_before t p q = ap decode_muted (encode_before t p q)

-- The settings of a chat with a new time, and the rest as in `old`.
abbrev pub Muted : LocalChatSettings → Time → LocalChatSettings → Type 0
Muted old t settings =
    (settings.found ≡ true)
    × (settings.muted_until ≡ t)
    × (settings.pinned ≡ old.pinned)
    × (settings.archived ≡ old.archived)

abbrev pub row_of : String → String → ChatDb → Option Setting
row_of jid chat d = lookup key_discrete (jid, chat) d

settings_of-Muted :
    (m : ℤ) (o : Option Setting)
    → Muted
        (settings_of o)
        (decode_muted m)
        (settings_of (some (record (value_or default_setting o) { muted_until = m })))
unfolding settings_of
settings_of-Muted m none = (refl, refl, refl, refl)
settings_of-Muted m (some r) = (refl, refl, refl, refl)

module _ {C : Type 0} (jid chat : String) where
  -- GetChatSettings after PutMutedUntil, before the time is looked at.
  read_back :
      (t : Time) (f : Faults) (s : Conn ChatDb C)
      → (let old = settings_of (row_of jid chat s.db) in
          Post
            (λ settings c. Muted old (decode_muted (encode_muted t)) settings)
            (λ c. Unit {0})
            ((put_muted_until jid chat t >> get_chat_settings jid chat) f s))
  unfolding put_muted_until get_chat_settings get_row put_setting
  read_back t f s =
      let g : Setting → Setting = λ r. record r { muted_until = encode_muted t } in
      let set : ChatDb → ChatDb = put_setting (jid, chat) g in
      bind-Post (λ u c. c.db ≡ set s.db) _ (λ c. Unit {0}) (put_muted_until jid chat t)
        (λ u. get_chat_settings jid chat) f s
        (exec-Post _ (λ c. Unit {0}) (λ d. ok (set d)) f s tt (λ d e. ground (arith, e)))
        (λ u c db.
          bind-Post (λ row d. row ≡ some (g (value_or default_setting (row_of jid chat s.db)))) _
            (λ d. Unit {0}) (get_row jid chat) (λ row. pure (settings_of row)) f c
            (query_or-Post (λ d. Unit {0}) f c _ none
              (λ (d : ChatDb). Option.map some (lookup key_discrete (jid, chat) d)) tt
              (found c.db db))
            (λ row d is.
              subst
                (λ r.
                  Muted (settings_of (row_of jid chat s.db)) (decode_muted (encode_muted t))
                    (settings_of r))
                (sym is) (settings_of-Muted (encode_muted t) (row_of jid chat s.db))))
    where
      new : Setting
      new = record (value_or default_setting (row_of jid chat s.db)) {
        muted_until = encode_muted t;
      }

      found :
          (d : ChatDb)
          → d ≡ put_setting (jid, chat) (λ r. record r { muted_until = encode_muted t }) s.db
          → value_or none (Option.map some (row_of jid chat d)) ≡ some new
      found d e = ground (
        arith,
        ap (row_of jid chat) e,
        lookup-upsert key_discrete (jid, chat) (jid, chat) new s.db,
      )

  -- A time that the table can hold comes back: after PutMutedUntil, GetChatSettings returns it, and the
  -- other settings of the chat as they were, or one of the two fails.
  pub get_chat_settings-put_muted_until :
      (t : Time) (f : Faults) (s : Conn ChatDb C)
      → Storable t
      → Post
          (λ settings c. Muted (settings_of (row_of jid chat s.db)) t settings)
          (λ c. Unit {0})
          ((put_muted_until jid chat t >> get_chat_settings jid chat) f s)
  get_chat_settings-put_muted_until t f s storable =
      subst
        (λ u.
          Post (λ settings c. Muted (settings_of (row_of jid chat s.db)) u settings) (λ c. Unit {0})
            ((put_muted_until jid chat t >> get_chat_settings jid chat) f s))
        (decode_muted-encode_muted t storable) (read_back t f s)

  -- A time before 1970 comes back as muted forever.
  get_chat_settings_before :
      (t : Time) (f : Faults) (s : Conn ChatDb C)
      → 0 < t.seconds
      → t.seconds < unix_epoch
      → Post
          (λ settings c. Muted (settings_of (row_of jid chat s.db)) muted_forever settings)
          (λ c. Unit {0})
          ((put_muted_until jid chat t >> get_chat_settings jid chat) f s)
  get_chat_settings_before t f s p q =
      subst
        (λ u.
          Post (λ settings c. Muted (settings_of (row_of jid chat s.db)) u settings) (λ c. Unit {0})
            ((put_muted_until jid chat t >> get_chat_settings jid chat) f s))
        (decode_muted_before t p q) (read_back t f s)
