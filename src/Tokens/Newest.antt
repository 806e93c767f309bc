-- ===== src/Tokens/Newest.antt =====
-- PutPrivacyTokens and then GetPrivacyToken (store/sqlstore/store.go).
use zev_bot.Prelude.{
  ℕ, ◌+◌, String, ◌≡◌, ◌≢◌, ◌⊎◌, refl, sym, ap, ap₂, ◌∙◌, none, some, [], ◌∷◌, true, false, if_pos,
  if_neg, value_or, Option-cases, inl, inr,
}
use mathlib.Core.Option
use zev_bot.Table.{lookup, upsert, lookup-upsert}
use zev_bot.Sql.{ok, Conn, Faults, exec-quiet, query_or-quiet}
use zev_bot.Jid.{Jid, Types}
use zev_bot.Lid.Many.{jid_discrete}
use zev_bot.Lid.Unique.{Unique}
use zev_bot.Chats.{to_unix}
use zev_bot.AppState.{less}
use zev_bot.Tokens.Store.{
  token_id_discrete, PrivacyToken, TokenRow, TokenDb, unix_time, token_row, merged_token, put_rows,
  other_jid, row_at, newest_token, token_of, put_privacy_tokens, get_privacy_token,
}
use zev_bot.Tokens.Other.{
  unix_time-to_unix, other_jid-other_jid, Behind, newest_token-own, newest_token-other, non_ad,
  other_jid-device, merged-fields,
}

module _ (types : Types) where
  module _ {C : Type 0} (jid : String) (t : PrivacyToken) (f : Faults) (s : Conn TokenDb C) where
    abbrev user : Jid
    user = types.to_non_ad t.user

    abbrev row : TokenRow
    row = merged_token (lookup token_id_discrete (jid, user) s.db.tokens) (token_row t)

    abbrev after : TokenDb
    after = record s.db { tokens = upsert token_id_discrete (jid, user) row s.db.tokens }

    put-after :
        f s.clock ≡ none
        → put_privacy_tokens types jid (t ∷ []) f s
          ≡ (ok tt, record s { db = after; clock = s.clock + 1 })
    unfolding put_privacy_tokens put_rows
    put-after quiet = exec-quiet _ f s after quiet refl

    row_at-user : row_at types jid after.tokens (some user) ≡ some row
    row_at-user =
        lookup-upsert token_id_discrete (jid, user) (jid, user) row s.db.tokens
        ∙ if_pos (token_id_discrete (jid, user) (jid, user)) refl _ _

    row_at-Behind :
        (o : Jid)
        → (o ≢ user
            → (x : TokenRow) → lookup token_id_discrete (jid, o) s.db.tokens ≡ some x
            → less x.timestamp row.timestamp ≡ true)
        → Behind types jid after user row (row_at types jid after.tokens (some o))
    row_at-Behind o h = elim (jid_discrete o user) [
      | yes e ↦ inl (ap (λ j. row_at types jid after.tokens (some j)) e ∙ row_at-user)
      | no n ↦
          let kept =
            lookup-upsert token_id_discrete (jid, o) (jid, user) row s.db.tokens
            ∙ if_neg (token_id_discrete (jid, user) (jid, o)) (λ e. n (sym (ap (λ k. k.1) e))) _
                _ in
          elim (Option-cases (lookup token_id_discrete (jid, o) s.db.tokens)) [
            | inl e ↦ inr (inl (kept ∙ e))
            | inr (x, e) ↦ inr (inr (x, kept ∙ e, h n x e))
          ]
    ]

    -- A query of the user's JID, or of the other one, finds the row.
    get-found :
        (v : Jid)
        → ((n : ℕ) → f n ≡ none)
        → types.to_non_ad v ≡ v
        → newest_token types jid after v ≡ some row
        → (get_privacy_token types jid v f (put_privacy_tokens types jid (t ∷ []) f s).1).0
          ≡ ok (some (token_of v row))
    unfolding get_privacy_token
    get-found v quiet fixed e =
        ap (λ r. (get_privacy_token types jid v f r.1).0) (put-after (quiet _))
        ∙ ap (λ r. r.0) (query_or-quiet none _ f _ (quiet _))
        ∙ ap₂ (λ w z. ok (value_or none (Option.map (λ r. some (token_of w r)) z))) fixed
            (ap (newest_token types jid after) fixed ∙ e)

-- A privacy token that is put, of a whole second and no older than the stored one of its user and newer
-- than that of the user's other JID, is what a query of either JID returns, when no statement fails;
-- the LID map is one to one.
pub get-put_privacy_tokens :
    {C : Type 0} (types : Types) (jid : String) (t : PrivacyToken) (f : Faults) (s : Conn TokenDb C)
    → ((n : ℕ) → f n ≡ none)
    → t.timestamp.nanos ≡ 0
    → Unique s.db.lid_map
    → ((x : TokenRow)
        → lookup token_id_discrete (jid, types.to_non_ad t.user) s.db.tokens ≡ some x
        → less (to_unix t.timestamp) x.timestamp ≡ false)
    → ((o : Jid)
        → other_jid types s.db.lid_map (types.to_non_ad t.user) ≡ some o
        → o ≢ types.to_non_ad t.user
        → (x : TokenRow) → lookup token_id_discrete (jid, o) s.db.tokens ≡ some x
        → less x.timestamp (to_unix t.timestamp) ≡ true)
    → (v : Jid)
    → (v ≡ types.to_non_ad t.user)
      ⊎ (other_jid types s.db.lid_map (types.to_non_ad t.user) ≡ some v)
    → (got : PrivacyToken) × ((get_privacy_token types jid v f
          (put_privacy_tokens types jid (t ∷ []) f s).1).0
        ≡ ok (some got))
      × (got.user ≡ v)
      × (got.token ≡ t.token)
      × (got.timestamp ≡ t.timestamp)
get-put_privacy_tokens types jid t f s quiet second unique own other v which = (
  token_of v written,
  get-found types jid t f s v quiet fixed found,
  refl,
  fields.0,
  ap unix_time fields.1 ∙ unix_time-to_unix t.timestamp second,
)
  where
    u : Jid
    u = types.to_non_ad t.user

    written : TokenRow
    written = merged_token (lookup token_id_discrete (jid, u) s.db.tokens) (token_row t)

    fields : (written.token ≡ t.token) × (written.timestamp ≡ to_unix t.timestamp)
    fields = merged-fields types _ (token_row t) own

    no_device : u.device ≡ 0
    no_device = (types.to_non_ad_lem t.user).1

    behind :
        (o : Jid)
        → other_jid types s.db.lid_map u ≡ some o
        → Behind types jid
            (after types jid t f s)
            u
            written
            (row_at types jid (after types jid t f s).tokens (some o))
    behind o e =
        row_at-Behind types jid t f s o (λ n x q. ap (less x.timestamp) fields.1 ∙ other o e n x q)

    fixed : types.to_non_ad v ≡ v
    fixed = elim which [
      | inl e ↦ non_ad types v (ap (λ j. j.device) e ∙ no_device)
      | inr e ↦ non_ad types v (other_jid-device types s.db.lid_map u v no_device e)
    ]

    found : newest_token types jid (after types jid t f s) v ≡ some written
    found = elim which [
      | inl e ↦
          ap (newest_token types jid (after types jid t f s)) e
          ∙ newest_token-own types jid (after types jid t f s) u written
              (row_at-user types jid t f s) behind
      | inr e ↦
          newest_token-other types jid (after types jid t f s) u written v
            (row_at-user types jid t f s)
            (other_jid-other_jid types s.db.lid_map u v unique no_device e) (behind v e)
    ]
