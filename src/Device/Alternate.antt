-- ===== src/Device/Alternate.antt =====
-- `GetAltJID` (store/store.go) on the LID map of store/sqlstore/lidmap.go.
use zev_bot.Prelude.{
  ◌≡◌, ◌≢◌, inl, inr, refl, sym, ap, ap₂, ◌∙◌, subst, String, none, some, arith, str_eq,
  string_discrete, if◌then◌else◌, Option-cases,
}
use zev_bot.Sql.{Result, ok, err, Faults}
use zev_bot.Sql.Post.{Post, Post-mono}
use zev_bot.Jid.{Jid, Types, empty_jid}
use zev_bot.Lid.{
  LidDb, LidMap, LidProg, Direction, to_lid, to_pn, lid_of, pn_of, select, mapped, or_empty,
  get_lid_for_pn, get_pn_for_lid, get_lid_mapping,
}
use zev_bot.Lid.Unique.{lid_of-pn_of, pn_of-lid_of}
use zev_bot.Lid.Refresh.{InStep, Answers, get_lid_mapping-Answers}
use zev_bot.Device.Types.{Device, of_container}
use zev_bot.Device.Methods.{get_alt_jid, call_shared}

module _ (types : Types) where
  open types use {default_user_server, hidden_user_server, servers_ne}

  -- The other JID of a user, by the table.
  abbrev pub alt_of : LidDb → Jid → Jid
  alt_of t jid =
      if str_eq jid.server default_user_server
      then mapped jid hidden_user_server (or_empty (lid_of jid.user t))
      else if str_eq jid.server hidden_user_server
      then mapped jid default_user_server (or_empty (pn_of jid.user t))
      else empty_jid

  -- `GetAltJID` on the LID map
  abbrev pub alt_jid : Device → Jid → LidProg Jid
  alt_jid d = get_alt_jid types (get_lid_for_pn types) (get_pn_for_lid types) (some d)

  -- The call returned `target` and kept the map, or the database failed.
  abbrev Alternate : Jid → Faults → LidMap → Result Jid × LidMap → Type 0
  Alternate target f s =
      Post (λ alt c. (alt ≡ target) × InStep c × (c.db ≡ s.db)) (λ c. f s.clock ≢ none)

  Answers-Alternate :
      (dir : Direction) (jid : Jid) (server : String) (f : Faults) (s : LidMap)
      (r : Result Jid × LidMap)
      → Answers dir jid server f s r
      → Alternate (mapped jid server (or_empty (select dir jid.user s.db))) f s r
  Answers-Alternate dir jid server f s (ok a, c) h =
      let e = h.answer in (ground (arith, e), h.in_step, h.same_table)
  Answers-Alternate dir jid server f s (err x, c) h = λ q. let e = h.answer in ground (arith, e, q)

  alt_jid-pn :
      (d : Device) (jid : Jid) (f : Faults) (s : LidMap)
      → d.lids ≡ of_container
      → jid.server ≡ default_user_server
      → alt_jid d jid f s ≡ get_lid_mapping to_lid jid hidden_user_server f s
  unfolding get_alt_jid call_shared get_lid_for_pn
  alt_jid-pn d jid f s k e = ground (arith, k, e)

  alt_jid-lid :
      (d : Device) (jid : Jid) (f : Faults) (s : LidMap)
      → d.lids ≡ of_container
      → jid.server ≡ hidden_user_server
      → alt_jid d jid f s ≡ get_lid_mapping to_pn jid default_user_server f s
  unfolding get_alt_jid call_shared get_pn_for_lid
  alt_jid-lid d jid f s k e = ground (arith, k, e, servers_ne)

  alt_jid-other :
      (d : Device) (jid : Jid) (f : Faults) (s : LidMap)
      → jid.server ≢ default_user_server
      → jid.server ≢ hidden_user_server
      → alt_jid d jid f s ≡ (ok empty_jid, s)
  unfolding get_alt_jid
  alt_jid-other d jid f s n m = ground (arith, n, m)

  alt_of-pn :
      (t : LidDb) (jid : Jid) (l : String)
      → jid.server ≡ default_user_server
      → lid_of jid.user t ≡ some l
      → l ≢ ""
      → alt_of t jid ≡ record { user = l; device = jid.device; server = hidden_user_server }
  unfolding mapped
  alt_of-pn t jid l e found named = ground (arith, e, found, named)

  alt_of-lid :
      (t : LidDb) (jid : Jid)
      → jid.server ≡ hidden_user_server
      → alt_of t jid ≡ mapped jid default_user_server (or_empty (pn_of jid.user t))
  alt_of-lid t jid e = ground (arith, e, servers_ne)

  alt_of-lid_found :
      (t : LidDb) (jid : Jid) (p : String)
      → jid.server ≡ hidden_user_server
      → pn_of jid.user t ≡ some p
      → p ≢ ""
      → alt_of t jid ≡ record { user = p; device = jid.device; server = default_user_server }
  unfolding mapped
  alt_of-lid_found t jid p e found named = alt_of-lid t jid e ∙ ground (arith, found, named)

  jid_eta :
      (jid : Jid) (server : String)
      → jid.server ≡ server
      → record { user = jid.user; device = jid.device; server = server } ≡ jid
  jid_eta jid server e = ap (λ v. record jid { server = v }) (sym e)

  -- On a map whose caches agree with its table, `GetAltJID` returns the JID that the table gives, and
  -- leaves the table as it was and the caches in agreement; it fails only where the database does. The
  -- device holds the container's LID map.
  pub get_alt_jid-Post :
      (d : Device) (jid : Jid) (f : Faults) (s : LidMap)
      → d.lids ≡ of_container
      → InStep s
      → Post
          (λ alt c. (alt ≡ alt_of s.db jid) × InStep c × (c.db ≡ s.db))
          (λ c. f s.clock ≢ none)
          (alt_jid d jid f s)
  get_alt_jid-Post d jid f s k h = elim (string_discrete jid.server default_user_server) [
    | yes e ↦ subst (Alternate (alt_of s.db jid) f s) (sym (alt_jid-pn d jid f s k e)) (
        subst (λ t. Alternate t f s (get_lid_mapping to_lid jid hidden_user_server f s))
          (ground (arith, e))
          (Answers-Alternate to_lid jid hidden_user_server f s _
            (get_lid_mapping-Answers to_lid jid hidden_user_server f s h)))
    | no n ↦ elim (string_discrete jid.server hidden_user_server) [
      | yes e ↦ subst (Alternate (alt_of s.db jid) f s) (sym (alt_jid-lid d jid f s k e)) (
          subst (λ t. Alternate t f s (get_lid_mapping to_pn jid default_user_server f s))
            (sym (alt_of-lid s.db jid e))
            (Answers-Alternate to_pn jid default_user_server f s _
              (get_lid_mapping-Answers to_pn jid default_user_server f s h)))
      | no m ↦
          subst (Alternate (alt_of s.db jid) f s) (sym (alt_jid-other d jid f s n m))
            (ground (arith, n, m), h, refl)
    ]
  ]

  none-alt_of :
      (t : LidDb) (jid : Jid)
      → (jid.server ≡ default_user_server → lid_of jid.user t ≡ none)
      → (jid.server ≡ hidden_user_server → pn_of jid.user t ≡ none)
      → (alt_of t jid).user ≡ ""
  unfolding mapped
  none-alt_of t jid no_lid no_pn = ground (arith, no_lid, no_pn)

  -- The other JID of the other JID is the JID itself, its device included, where there is another one.
  pub alt_of-alt_of :
      (s : LidMap) (jid : Jid)
      → InStep s
      → (alt_of s.db jid).user ≢ ""
      → alt_of s.db (alt_of s.db jid) ≡ jid
  alt_of-alt_of s jid h ne = elim (string_discrete jid.server default_user_server) [
    | yes e ↦ elim (Option-cases (lid_of jid.user s.db)) [
      | inl missing ↦
          absurd (ne (none-alt_of s.db jid (λ _. missing) (λ q. absurd (servers_ne (sym e ∙ q)))))
      | inr (l, found) ↦
          let back = pn_of-lid_of l jid.user s.db h.unique found in
          let (l_named, p_named) = h.named l jid.user back in
          ap (alt_of s.db) (alt_of-pn s.db jid l e found l_named)
          ∙ alt_of-lid_found s.db _ jid.user refl back p_named
          ∙ jid_eta jid default_user_server e
    ]
    | no n ↦ elim (string_discrete jid.server hidden_user_server) [
      | yes e ↦ elim (Option-cases (pn_of jid.user s.db)) [
        | inl missing ↦ absurd (ne (none-alt_of s.db jid (λ q. absurd (n q)) (λ _. missing)))
        | inr (p, found) ↦
            let (l_named, p_named) = h.named jid.user p found in
            ap (alt_of s.db) (alt_of-lid_found s.db jid p e found p_named)
            ∙ alt_of-pn s.db _ jid.user refl (lid_of-pn_of jid.user p s.db h.unique found) l_named
            ∙ jid_eta jid hidden_user_server e
      ]
      | no m ↦ absurd (ne (none-alt_of s.db jid (λ q. absurd (n q)) (λ q. absurd (m q))))
    ]
  ]

-- `GetAltJID` of the JID that `GetAltJID` returned is the JID that it was given, its device included,
-- where it returned one at all; each call fails only where the database does. The device holds the
-- container's LID map, whose caches agree with its table.
pub get_alt_jid-get_alt_jid :
    (types : Types) (d : Device) (jid : Jid) (f g : Faults) (s : LidMap)
    → d.lids ≡ of_container
    → InStep s
    → Post
        (λ alt c.
          alt.user ≢ ""
          → Post (λ back c'. back ≡ jid) (λ c'. g c.clock ≢ none) (alt_jid types d alt g c))
        (λ c. f s.clock ≢ none)
        (alt_jid types d jid f s)
get_alt_jid-get_alt_jid types d jid f g s k h =
    Post-mono (λ alt c. (alt ≡ alt_of types s.db jid) × InStep c × (c.db ≡ s.db)) _
      (λ c. f s.clock ≢ none) (λ c. f s.clock ≢ none) (alt_jid types d jid f s)
      (λ alt c (e, h', same) ne.
        Post-mono (λ back c'. (back ≡ alt_of types c.db alt) × InStep c' × (c'.db ≡ c.db)) _
          (λ c'. g c.clock ≢ none) (λ c'. g c.clock ≢ none) (alt_jid types d alt g c)
          (λ back c' (e', h'', same').
            e'
            ∙ ap₂ (alt_of types) same e
            ∙ alt_of-alt_of types s jid h (subst (λ a. a.user ≢ "") e ne))
          (λ c' q. q) (get_alt_jid-Post types d alt g c k h'))
      (λ c q. q) (get_alt_jid-Post types d jid f s k h)
