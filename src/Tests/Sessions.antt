-- ===== src/Tests/Sessions.antt =====
-- The theorems on Signal sessions, with a map and a codec that meet the laws asked for.
use zev_bot.Prelude.{String, ◌≡◌, refl, none, some, List, [], ◌∷◌, arith, string_discrete}
use zev_bot.Table.{Table, Distinct, lookup, upsert, lookup-upsert, upsert-Distinct}
use zev_bot.Sql.{sql_txn}
use zev_bot.Signal.{Bytes, key_discrete, Codec, SyncMap, Entry, with_cached_sessions}
use zev_bot.Signal.Simulation.{Call, load, store, State}
use zev_bot.Signal.Refinement.{SameRun, session_cache-SameRun}

abbrev raw_codec : Codec
raw_codec = record {
  Session = Bytes;
  new_session = [];
  serialize = λ s. s;
  deserialize = λ b. some b;
  deserialize-serialize = λ s. refl;
}

module _ {V : Type 0} where
  -- A list of entries with each key once.
  tidy : Table String V → Table String V
  tidy [] = []
  tidy ((k, v) ∷ t) = upsert string_discrete k v (tidy t)

  tidy-Distinct : (t : Table String V) → Distinct string_discrete (tidy t)
  unfolding tidy
  tidy-Distinct [] = tt
  tidy-Distinct ((k, v) ∷ t) = upsert-Distinct string_discrete k v (tidy t) (tidy-Distinct t)

  lookup-tidy :
      (t : Table String V) (k : String)
      → lookup string_discrete k (tidy t) ≡ lookup string_discrete k t
  unfolding tidy lookup
  lookup-tidy [] k = refl
  lookup-tidy ((j, v) ∷ t) k =
      ground (arith, lookup-tidy t k, lookup-upsert string_discrete k j v (tidy t))

  lookup-nil : (k : String) → lookup {B = V} string_discrete k [] ≡ none
  unfolding lookup
  lookup-nil k = refl

abbrev list_map : (V : Type 0) → SyncMap V
list_map V = record {
  M = (t : Table String V) × Distinct string_discrete t;
  new_with_data = λ t. (tidy t, tidy-Distinct t);
  get = λ m k. lookup string_discrete k m.0;
  set = λ m k v. (upsert string_discrete k v m.0, upsert-Distinct string_discrete k v m.0 m.1);
  iter = λ m. m.0;
  clear = λ m. ([], tt);
  get-new_with_data = λ t k. lookup-tidy t k;
  get-set = λ m j k v. lookup-upsert string_discrete j k v m.0;
  lookup-iter = λ m k. refl;
  iter-Distinct = λ m. m.1;
  get-clear = λ m k. lookup-nil k;
}

abbrev entries : SyncMap (Entry Bytes)
entries = list_map (Entry Bytes)

abbrev device : State raw_codec entries "me"
device = record {
  db = record {
    identity_keys = [];
    sessions = (("me", "a"), 1 ∷ []) ∷ (("you", "a"), 2 ∷ []) ∷ [];
    sender_keys = [];
  };
  mem = none;
  clock = 0;
}

abbrev calls : List (Call Bytes)
calls = load "a" ∷ store "a" (7 ∷ []) ∷ load "a" ∷ load "b" ∷ store "c" (8 ∷ []) ∷ []

sessions-Distinct : Distinct key_discrete device.db.sessions
unfolding lookup key_discrete string_discrete
sessions-Distinct = (refl, (refl, tt))

session_cache-SameRun_example :
    SameRun raw_codec entries "me" sql_txn calls
      (λ _. none)
      (with_cached_sessions raw_codec entries "me" ("a" ∷ "b" ∷ []) (λ _. none) device).1
      device
session_cache-SameRun_example =
    session_cache-SameRun raw_codec entries "me" sql_txn ("a" ∷ "b" ∷ []) calls (λ _. none) device
      (λ n. refl) refl sessions-Distinct
