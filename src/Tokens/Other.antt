-- ===== src/Tokens/Other.antt =====
-- The two JIDs of a user, and which of their rows GetPrivacyToken (store/sqlstore/store.go) takes.
use zev_bot.Prelude.{
  some-injective, String, ◌≡◌, ◌≢◌, ◌⊎◌, refl, sym, ap, ap₂, ◌∙◌, Option, none, some, true, false,
  arith, string_discrete, Option-cases, inl, inr,
}
use zev_bot.Jid.{Jid, Types}
use zev_bot.Lid.{LidDb, lid_of, pn_of}
use zev_bot.Lid.Unique.{Unique, lid_of-pn_of, pn_of-lid_of}
use zev_bot.Chats.{Time, ℤ, pos, negsuc, to_unix}
use zev_bot.AppState.{less}
use zev_bot.Tokens.Store.{
  TokenRow, TokenDb, unix_time, merged_token, other_jid, later_token, row_at, newest_token,
}

-- Whole seconds come back from the table.
pub unix_time-to_unix : (t : Time) → t.nanos ≡ 0 → unix_time (to_unix t) ≡ t
unfolding to_unix
unix_time-to_unix t e = ground (arith, e)

less_irrefl : (a : ℤ) → less a a ≡ false
unfolding less
less_irrefl (pos n) = ground arith
less_irrefl (negsuc n) = ground arith

less_asym : (a b : ℤ) → less a b ≡ true → less b a ≡ false
unfolding less
less_asym (pos a) (pos b) h = ground (arith, h)
less_asym (pos a) (negsuc b) h = ground (arith, h)
less_asym (negsuc a) (pos b) h = refl
less_asym (negsuc a) (negsuc b) h = ground (arith, h)

module _ (types : Types) where
  open types use {default_user_server, hidden_user_server, servers_ne}

  other_jid-lid :
      (m : LidDb) (u : Jid) (p : String)
      → u.server ≡ hidden_user_server
      → pn_of u.user m ≡ some p
      → other_jid types m u ≡ some (record { user = p; device = 0; server = default_user_server })
  unfolding other_jid
  other_jid-lid m u p e found = ground (arith, e, found)

  other_jid-pn :
      (m : LidDb) (u : Jid) (l : String)
      → u.server ≡ default_user_server
      → lid_of u.user m ≡ some l
      → other_jid types m u ≡ some (record { user = l; device = 0; server = hidden_user_server })
  unfolding other_jid
  other_jid-pn m u l e found = ground (arith, e, found, servers_ne)

  other_jid_self :
      (m : LidDb) (u : Jid)
      → u.server ≢ hidden_user_server
      → u.server ≢ default_user_server
      → other_jid types m u ≡ some u
  unfolding other_jid
  other_jid_self m u n k = ground (arith, n, k)

  whole :
      (u : Jid) (server : String)
      → u.device ≡ 0
      → u.server ≡ server
      → record { user = u.user; device = 0; server = server } ≡ u
  whole u server e h = ap₂ (λ d v. record u { device = d; server = v }) (sym e) (sym h)

  -- The other JID of the other JID is the JID.
  pub other_jid-other_jid :
      (m : LidDb) (u o : Jid)
      → Unique m
      → u.device ≡ 0
      → other_jid types m u ≡ some o
      → other_jid types m o ≡ some u
  unfolding other_jid
  other_jid-other_jid m u o unique e h = elim (string_discrete u.server hidden_user_server) [
    | yes q ↦ elim (Option-cases (pn_of u.user m)) [
      | inl missing ↦ absurd (ground (arith, q, missing, h))
      | inr (p, found) ↦
          ap (other_jid types m) (sym (some-injective (sym (other_jid-lid m u p q found) ∙ h)))
          ∙ other_jid-pn m _ u.user refl (lid_of-pn_of u.user p m unique found)
          ∙ ap some (whole u hidden_user_server e q)
    ]
    | no n ↦ elim (string_discrete u.server default_user_server) [
      | yes q ↦ elim (Option-cases (lid_of u.user m)) [
        | inl missing ↦ absurd (ground (arith, n, q, missing, h))
        | inr (l, found) ↦
            ap (other_jid types m) (sym (some-injective (sym (other_jid-pn m u l q found) ∙ h)))
            ∙ other_jid-lid m _ u.user refl (pn_of-lid_of l u.user m unique found)
            ∙ ap some (whole u default_user_server e q)
      ]
      | no k ↦
          ap (other_jid types m) (sym (some-injective (sym (other_jid_self m u n k) ∙ h)))
          ∙ other_jid_self m u n k
    ]
  ]

  module _ (jid : String) (d : TokenDb) (u : Jid) (r : TokenRow) where
    -- A row that is older than the row `r`, or that row.
    abbrev pub Behind : Option TokenRow → Type 0
    Behind q =
        (q ≡ some r)
        ⊎ (q ≡ none)
        ⊎ ((x : TokenRow) × (q ≡ some x) × (less x.timestamp r.timestamp ≡ true))

    pub later_token-left : (q : Option TokenRow) → Behind q → later_token (some r) q ≡ some r
    later_token-left q (inl e) = ground (arith, e, less_irrefl r.timestamp)
    later_token-left q (inr (inl e)) = ap (later_token (some r)) e
    later_token-left q (inr (inr (x, e, h))) =
        ground (arith, e, less_asym x.timestamp r.timestamp h)

    later_token-right : (q : Option TokenRow) → Behind q → later_token q (some r) ≡ some r
    later_token-right q (inl e) = ground (arith, e, less_irrefl r.timestamp)
    later_token-right q (inr (inl e)) = ap (λ q. later_token q (some r)) e
    later_token-right q (inr (inr (x, e, h))) = ground (arith, e, h)

    pub newest_token-own :
        row_at types jid d.tokens (some u) ≡ some r
        → ((o : Jid)
            → other_jid types d.lid_map u ≡ some o
            → Behind (row_at types jid d.tokens (some o)))
        → newest_token types jid d u ≡ some r
    unfolding newest_token
    newest_token-own e h = elim (Option-cases (other_jid types d.lid_map u)) [
      | inl q ↦ ap₂ (λ a b. later_token a (row_at types jid d.tokens b)) e q
      | inr (o, q) ↦
          ap₂ (λ a b. later_token a (row_at types jid d.tokens b)) e q
          ∙ later_token-left (row_at types jid d.tokens (some o)) (h o q)
    ]

    pub newest_token-other :
        (o : Jid)
        → row_at types jid d.tokens (some u) ≡ some r
        → other_jid types d.lid_map o ≡ some u
        → Behind (row_at types jid d.tokens (some o))
        → newest_token types jid d o ≡ some r
    unfolding newest_token
    newest_token-other o e q h =
        ap (λ b. later_token (row_at types jid d.tokens (some o)) (row_at types jid d.tokens b)) q
        ∙ ap (later_token (row_at types jid d.tokens (some o))) e
        ∙ later_token-right (row_at types jid d.tokens (some o)) h

  pub non_ad : (v : Jid) → v.device ≡ 0 → types.to_non_ad v ≡ v
  non_ad v e =
      let (user, device, server) = types.to_non_ad_lem v in
      λ i. record { user = user i; device = (device ∙ sym e) i; server = server i }

  pub other_jid-device :
      (m : LidDb) (u o : Jid) → u.device ≡ 0 → other_jid types m u ≡ some o → o.device ≡ 0
  unfolding other_jid
  other_jid-device m u o e h = ground (arith, e, h)

  pub merged-fields :
      (q : Option TokenRow) (r : TokenRow)
      → ((x : TokenRow) → q ≡ some x → less r.timestamp x.timestamp ≡ false)
      → ((merged_token q r).token ≡ r.token) × ((merged_token q r).timestamp ≡ r.timestamp)
  unfolding merged_token
  merged-fields none r h = (refl, refl)
  merged-fields (some x) r h = ground (arith, h x refl)
