-- ===== src/Tests/Keys.antt =====
-- The theorems on pre keys, at a device with one key that is not uploaded.
use zev_bot.Prelude.{
  ℕ, zero, suc, ◌<◌, ◌≡◌, refl, ap, none, some, List, [], ◌∷◌, false, length, All, arith,
  ℕ_discrete, string_discrete,
}
use zev_bot.Table.{lookup}
use zev_bot.Sql.{Conn, Faults, ok, ◌>>◌}
use zev_bot.Sql.Post.{Post}
use zev_bot.Signal.{Bytes}
use zev_bot.PreKeys.{
  PreKeyDb, PreKeyId, Row, PreKey, pre_key_id_discrete, max_id, get_or_gen_pre_keys,
  mark_pre_keys_as_uploaded,
}
use zev_bot.PreKeys.Insert.{Valid, Grown}
use zev_bot.PreKeys.Generate.{Batch, get_or_gen_pre_keys-Batch}
use zev_bot.PreKeys.Mark.{mark-get_or_gen_pre_keys}
use zev_bot.PreKeys.Returns.{get_or_gen_pre_keys-returns}

abbrev zeros : ℕ → Bytes
zeros zero = []
zeros (suc n) = 0 ∷ zeros n

abbrev random : ℕ → Bytes
random n = zeros 32

abbrev old : Row
old = record { key = zeros 32; uploaded = false }

abbrev one_key : Conn PreKeyDb (Unit {0})
one_key = record { db = (("me", 1), old) ∷ []; mem = tt; clock = 0 }

one_key-Valid : Valid one_key.db
unfolding lookup
one_key-Valid = record {
  distinct = (refl, tt);
  bounded = λ k r e. ground (
    arith,
    e,
    ap {B = ℕ} (λ (i : PreKeyId). i.1) {x = k} {y = ("me", 1)},
    ap {B = ℕ} (λ (o : Row). length o.key) {x = old} {y = r},
  );
}

abbrev third_fails : Faults
third_fails n = elim (ℕ_discrete n 3) [ yes e ↦ some (record { code = 1; rows = 0 }) | no e ↦ none ]

get_or_gen_pre_keys-Batch_example :
    Post
      (Batch random (λ n. refl) "me" 3 one_key.db)
      (λ c. Grown one_key.db c.db)
      (get_or_gen_pre_keys random "me" 3 third_fails one_key)
get_or_gen_pre_keys-Batch_example =
    get_or_gen_pre_keys-Batch random (λ n. refl) "me" 3 third_fails one_key one_key-Valid

mark-get_or_gen_pre_keys_example :
    Post
      (λ ks c. All (λ (k : PreKey). 1 < k.key_id) ks × (length ks ≡ 2))
      (λ c. Valid c.db)
      ((mark_pre_keys_as_uploaded "me" 1 >> get_or_gen_pre_keys random "me" 2) third_fails one_key)
unfolding lookup pre_key_id_discrete string_discrete ℕ_discrete
mark-get_or_gen_pre_keys_example =
    mark-get_or_gen_pre_keys "me" 1 random (λ n. refl) 2 third_fails one_key old one_key-Valid refl

get_or_gen_pre_keys-returns_example :
    (ks : List PreKey) × (c : Conn PreKeyDb (Unit {0})) × (get_or_gen_pre_keys random "me" 3
        (λ n. none)
        one_key
      ≡ (ok ks, c))
unfolding max_id string_discrete
get_or_gen_pre_keys-returns_example =
    get_or_gen_pre_keys-returns random "me" (λ n. none) (λ n. refl) 3 one_key one_key-Valid
      (omega arith)
