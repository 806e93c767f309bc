-- ===== src/Signal/Cache.antt =====
-- store/sessioncache.go and the session methods of store/signal.go. A device loads and stores Signal
-- sessions through the cache in its context, if there is one, or through the table.
use zev_bot.Prelude.{
  String, ◌≡◌, ite, Option, none, some, List, [], ◌∷◌, Bool, true, false, string_discrete,
  if◌then◌else◌,
}
use zev_bot.Table.{Table, Distinct, lookup, upsert}
use zev_bot.Sql.{wrap, external, Prog, pure, raise, gets, modify, wrapping, ◌>>=◌, ◌>>◌, Txn}
use zev_bot.Signal.Tables.{Bytes, SignalDb}
use zev_bot.Signal.Store.{
  get_session, has_session, put_session, get_many_sessions, put_many_sessions,
}

-- `record.Session` of libsignal with the serializer of store/signal.go, which are not in the
-- repository: a serialized session is read back as itself.
pub record Codec : Type 1 where
  pub Session : Type 0
  pub new_session : Session
  pub serialize : Session → Bytes
  pub deserialize : Bytes → Option Session
  pub deserialize-serialize : (s : Session) → deserialize (serialize s) ≡ some s

-- `exsync.Map`, by the laws of a map.
pub record SyncMap (V : Type 0) : Type 1 where
  pub M : Type 0
  pub new_with_data : Table String V → M
  pub get : M → String → Option V
  pub set : M → String → V → M
  pub iter : M → Table String V
  pub clear : M → M
  pub get-new_with_data :
      (t : Table String V) (k : String) → get (new_with_data t) k ≡ lookup string_discrete k t
  pub get-set :
      (m : M) (j k : String) (v : V)
      → get (set m k v) j ≡ ite (string_discrete k j) (some v) (get m j)
  pub lookup-iter : (m : M) (k : String) → lookup string_discrete k (iter m) ≡ get m k
  pub iter-Distinct : (m : M) → Distinct string_discrete (iter m)
  pub get-clear : (m : M) (k : String) → get (clear m) k ≡ none

-- `sessionCacheEntry`
pub record Entry (S : Type 0) : Type 0 where
  pub dirty : Bool
  pub found : Bool
  pub session : S

module _ (codec : Codec) (sync : SyncMap (Entry codec.Session)) (jid : String) where
  open codec use {Session, new_session, serialize, deserialize}
  open sync use {M, new_with_data, get, set, iter, clear}

  -- The cache that the context carries, if any.
  abbrev pub Context : Type 0
  Context = Option M

  abbrev pub Device : Type 0 → Type 0
  Device A = Prog SignalDb Context A

  abbrev session_of : Option (Entry Session) → Option Session
  session_of none = none
  session_of (some e) = some e.session

  unfoldable pub get_cached_session : Context → String → Option Session
  get_cached_session none addr = none
  get_cached_session (some m) addr = session_of (get m addr)

  abbrev new_entry : Session → Entry Session
  new_entry s = record { dirty = true; found = true; session = s }

  -- What `LoadSession` makes of a row.
  abbrev pub decoded : Option Session → Device Session
  decoded none = raise (wrap "failed to deserialize session" (external 0))
  decoded (some s) = pure s

  unfoldable pub from_row : Option Bytes → Device Session
  from_row none = pure new_session
  from_row (some raw) = decoded (deserialize raw)

  unfoldable pub cached_or_row : String → Option Session → Device Session
  unfolding from_row
  cached_or_row addr (some s) = pure s
  cached_or_row addr none = do
    raw ← wrapping "failed to load session" (get_session jid addr)
    from_row raw

  unfoldable pub load_session : String → Device Session
  unfolding get_cached_session cached_or_row
  load_session addr = do c ← gets (λ c. c); cached_or_row addr (get_cached_session c addr)

  -- `putCachedSession` where the context has a cache, else the table
  unfoldable pub store_at : String → Session → Context → Device (Unit {0})
  store_at addr s (some m) = modify (λ _. some (set m addr (new_entry s)))
  store_at addr s none = wrapping "failed to store session" (put_session jid addr (serialize s))

  unfoldable pub store_session : String → Session → Device (Unit {0})
  unfolding store_at
  store_session addr s = do c ← gets (λ c. c); store_at addr s c

  unfoldable pub contains_session : String → Device Bool
  contains_session addr = wrapping "failed to check if store has session" (has_session jid addr)

  -- The loop of `WithCachedSessions`: a row that cannot be read is left out of both maps.
  unfoldable pub prefetched :
      Table String (Option Bytes) → Table String Bool × Table String (Entry Session)
  prefetched [] = ([], [])
  prefetched ((addr, none) ∷ rest) =
      let (existing, wrapped') = prefetched rest in
      (
        upsert string_discrete addr false existing,
        upsert string_discrete addr (record { dirty = false; found = false; session = new_session })
            wrapped',
      )
  prefetched ((addr, some raw) ∷ rest) =
      let (existing, wrapped') = prefetched rest in
      elim (deserialize raw) [
        | none ↦ (existing, wrapped')
        | some s ↦ (
          upsert string_discrete addr true existing,
          upsert string_discrete addr (record { dirty = false; found = true; session = s })
              wrapped',
        )
      ]

  unfoldable pub enter : Table String (Option Bytes) → Device (Table String Bool)
  unfolding prefetched
  enter rows = do modify (λ _. some (new_with_data (prefetched rows).1)); pure (prefetched rows).0

  unfoldable pub with_cached_sessions : List String → Device (Table String Bool)
  unfolding enter
  with_cached_sessions [] = pure []
  with_cached_sessions (a ∷ as₁) = do
    rows ← wrapping "failed to prefetch sessions" (get_many_sessions jid (a ∷ as₁))
    enter rows

  unfoldable pub dirty_sessions : Table String (Entry Session) → List (String × Bytes)
  dirty_sessions [] = []
  dirty_sessions ((addr, e) ∷ rest) =
      let others = dirty_sessions rest in
      if e.dirty then (addr, serialize e.session) ∷ others else others

  module _ (txn : Txn SignalDb Context) where
    abbrev pub flush : List (String × Bytes) → Device (Unit {0})
    flush [] = pure tt
    flush (d ∷ ds) = wrapping "failed to store cached sessions" (put_many_sessions jid txn (d ∷ ds))

    unfoldable pub put_at : Context → Device (Unit {0})
    unfolding dirty_sessions
    put_at none = pure tt
    put_at (some m) = do flush (dirty_sessions (iter m)); modify (λ _. some (clear m))

    unfoldable pub put_cached_sessions : Device (Unit {0})
    unfolding put_at
    put_cached_sessions = do c ← gets (λ c. c); put_at c
