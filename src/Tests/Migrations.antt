-- ===== src/Tests/Migrations.antt =====
-- The theorems on migrations to LIDs, at a device with two sessions under a phone number and one under
-- another, with the database's LIKE and replace.
use Prim.Native.Char.{code}
use Prim.Native.String.{◌++◌ as append}
use zev_bot.Prelude.{
  ne_text, ◌≡◌, ◌≢◌, ◌⊎◌, inl, inr, refl, sym, ◌∙◌, ℕ, zero, suc, String, Bool, true, false, ◌&&◌,
  ◌||◌, none, some, List, [], ◌∷◌, str_eq, if◌then◌else◌, arith, ◌==◌, ap, string_discrete,
  ℕ_discrete,
}
use zev_bot.Sql.{ok, Conn, Faults, sql_txn}
use zev_bot.Sql.Post.{Post}
use zev_bot.Table.{Table, lookup}
use zev_bot.Table.Move.{Has, Moves}
use zev_bot.Signal.{contains, SignalDb, Bytes, Key, key_discrete}
use zev_bot.Signal.Migrate.{of_user, renamed, migrate_pn_to_lid}
use zev_bot.Signal.Migrated.{Movable, Moved, migrate_pn_to_lid-once, migrate_pn_to_lid-Moved}

-- `LIKE`: `%` stands for any text, and the texts have no `_`.
unfoldable like_from : (String → Bool) → String → Bool
like_from rest String.[] = rest String.[]
like_from rest (String.◌∷◌ c t) = let later = like_from rest t in rest (String.◌∷◌ c t) || later

unfoldable starts : (String → Bool) → ℕ → String → Bool
starts rest c String.[] = false
starts rest c (String.◌∷◌ d t) = c == code d && rest t

unfoldable like_text : String → String → Bool
unfolding like_from starts
like_text String.[] t = str_eq t ""
like_text (String.◌∷◌ c p) t =
    let any = like_from (like_text p) t in
    let one = starts (like_text p) (code c) t in if code c == 37 then any else one

unfoldable prefix : String → String → Bool
prefix String.[] t = true
prefix (String.◌∷◌ c p) String.[] = false
prefix (String.◌∷◌ c p) (String.◌∷◌ d t) = code c == code d && prefix p t

unfoldable pred_length : String → ℕ
pred_length String.[] = 0
pred_length (String.◌∷◌ c String.[]) = 0
pred_length (String.◌∷◌ c (String.◌∷◌ d t)) = suc (pred_length (String.◌∷◌ d t))

-- `replace`, past the next `skip` characters
unfoldable replace_from : String → String → ℕ → String → String
unfolding prefix pred_length
replace_from from to skip String.[] = String.[]
replace_from from to (suc skip) (String.◌∷◌ c t) = replace_from from to skip t
replace_from from to zero (String.◌∷◌ c t) =
    let found = replace_from from to (pred_length from) t in
    let rest = replace_from from to zero t in
    if prefix from (String.◌∷◌ c t) then append to found else String.◌∷◌ c rest

unfoldable replace_text : String → String → String → String
unfolding replace_from
replace_text t from to = replace_from from to zero t

abbrev sessions : Table Key Bytes
sessions = (("me", "31:0"), 1 ∷ []) ∷ (("me", "31:5"), 2 ∷ []) ∷ (("me", "44:1"), 3 ∷ []) ∷ []

abbrev some_sessions : Conn SignalDb (List String)
some_sessions = record {
  db = record { identity_keys = []; sessions = sessions; sender_keys = [] };
  mem = [];
  clock = 0;
}

abbrev third_fails : Faults
third_fails n = if n == 2 then some (record { code = 1; rows = 0 }) else none

abbrev no_faults : Faults
no_faults n = none

abbrev moves_to : Key → Key
moves_to k = renamed "me" like_text replace_text "31" "100" k

stored :
    (k : Key)
    → Has key_discrete k sessions
    → (k ≡ ("me", "31:0")) ⊎ (k ≡ ("me", "31:5")) ⊎ (k ≡ ("me", "44:1"))
unfolding lookup
stored k has = ground (arith, has)

-- The address of the other phone number is not hit.
other_number :
    {k : Key} → k ≡ ("me", "44:1") → of_user "me" like_text replace_text "31" k ≡ true → ⊥
unfolding like_text string_discrete ℕ_discrete
other_number {k} e h = ground (arith, h, ap (λ k. of_user "me" like_text replace_text "31" k) e)

first_moves : moves_to ("me", "31:0") ≡ ("me", "100:0")
unfolding replace_text ℕ_discrete
first_moves = refl

second_moves : moves_to ("me", "31:5") ≡ ("me", "100:5")
unfolding replace_text ℕ_discrete
second_moves = refl

apart : {j k : Key} → j ≡ ("me", "31:0") → k ≡ ("me", "31:5") → moves_to j ≢ moves_to k
apart e h q =
    ne_text "100:0" "100:5" refl
      (ap (λ k. k.1) (sym first_moves ∙ ap moves_to (sym e) ∙ q ∙ ap moves_to h ∙ second_moves))

gone_from :
    (k j : Key)
    → moves_to k ≡ j
    → of_user "me" like_text replace_text "31" j ≡ false
    → of_user "me" like_text replace_text "31" (moves_to k) ≡ false
gone_from k j e h = ap (λ k. of_user "me" like_text replace_text "31" k) e ∙ h

sessions-Moves : Moves key_discrete (of_user "me" like_text replace_text "31") moves_to sessions
unfolding like_text string_discrete ℕ_discrete
sessions-Moves = record {
  away = λ k has h. elim (stored k has) [
    | inl e ↦ gone_from k ("me", "100:0") (ap moves_to e ∙ first_moves) refl
    | inr o ↦ elim o [
      | inl e ↦ gone_from k ("me", "100:5") (ap moves_to e ∙ second_moves) refl
      | inr e ↦ absurd (other_number e h)
    ]
  ];
  injective = λ j k has has' h h' q. elim (stored j has) [
    | inl e ↦ elim (stored k has') [
      | inl e' ↦ e ∙ sym e'
      | inr o ↦ elim o [ inl e' ↦ absurd (apart e e' q) | inr e' ↦ absurd (other_number e' h') ]
    ]
    | inr o ↦ elim o [
      | inl e ↦ elim (stored k has') [
        | inl e' ↦ absurd (apart e' e (sym q))
        | inr o' ↦ elim o' [ inl e' ↦ e ∙ sym e' | inr e' ↦ absurd (other_number e' h') ]
      ]
      | inr e ↦ absurd (other_number e h)
    ]
  ];
}

some_sessions-Movable : Movable "me" like_text replace_text sql_txn "31" "100" some_sessions.db
unfolding lookup
some_sessions-Movable = record {
  sessions = sessions-Moves;
  identity_keys = record {
    away = λ k has. absurd (has refl);
    injective = λ j k has. absurd (has refl);
  };
  sender_keys = record {
    away = λ k has. absurd (has refl);
    injective = λ j k has. absurd (has refl);
  };
}

migrate_pn_to_lid-Moved_example :
    Post
      (λ u c. Moved "me" like_text replace_text sql_txn "31" "100" some_sessions.db c.db)
      (λ c. c.db ≡ some_sessions.db)
      (migrate_pn_to_lid "me" like_text replace_text sql_txn "31" "100" no_faults some_sessions)
unfolding contains lookup string_discrete key_discrete
migrate_pn_to_lid-Moved_example =
    migrate_pn_to_lid-Moved "me" like_text replace_text sql_txn "31" "100" no_faults some_sessions
      refl some_sessions-Movable (refl, (refl, (refl, tt))) tt tt

migrate_pn_to_lid-once_example :
    migrate_pn_to_lid "me" like_text replace_text sql_txn "31" "200" third_fails
      (migrate_pn_to_lid "me" like_text replace_text sql_txn "31" "100" third_fails some_sessions).1
    ≡ (
      ok tt,
      (migrate_pn_to_lid "me" like_text replace_text sql_txn "31" "100" third_fails
          some_sessions).1,
    )
migrate_pn_to_lid-once_example =
    migrate_pn_to_lid-once "me" like_text replace_text sql_txn "31" "100" "200" third_fails
      third_fails some_sessions
