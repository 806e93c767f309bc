-- ===== src/Signal/Flush.antt =====
-- `PutCachedSessions` writes each dirty session of the cache to its row, and no other row.
use zev_bot.Prelude.{
  ℕ, ◌+◌, String, ◌≡◌, ◌≢◌, refl, ap, Option, none, some, List, [], ◌∷◌, arith, string_discrete,
  if◌then◌else◌, ◌∙◌,
}
use zev_bot.Table.{Table, Distinct, lookup, upsert, lookup-upsert}
use zev_bot.Sql.{
  Result, ok, Faults, Conn, exec-quiet, Txn, Outcome, not_begun, rolled_back, committed, bind-ok,
  modify,
}
use zev_bot.Signal.Tables.{Bytes, Key, SignalDb, key_discrete}
use zev_bot.Signal.Store.{put_session, put_each_session, put_many_sessions}
use zev_bot.Signal.Cache.{
  Codec, SyncMap, Entry, Context, put_at, put_cached_sessions, dirty_sessions, flush,
}
use zev_bot.Signal.Simulation.{NoFaults, State, covered}

-- The table after `PutSession` for each entry of a list.
unfoldable pub written : String → List (String × Bytes) → Table Key Bytes → Table Key Bytes
written jid [] t = t
written jid ((a, v) ∷ rest) t = written jid rest (upsert key_discrete (jid, a) v t)

module _ (jid : String) where
  lookup-written :
      (rows : List (String × Bytes)) (t : Table Key Bytes) (a : String)
      → Distinct string_discrete rows
      → lookup key_discrete (jid, a) (written jid rows t) ≡ elim (lookup string_discrete a rows) [
        | none ↦ lookup key_discrete (jid, a) t
        | some v ↦ some v
      ]
  unfolding written lookup
  lookup-written [] t a d = refl
  lookup-written ((b, v) ∷ rows) t a d = ground (
    arith,
    lookup-written rows (upsert key_discrete (jid, b) v t) a d.1,
    lookup-upsert key_discrete (jid, a) (jid, b) v t,
  )

  lookup-written_others :
      (rows : List (String × Bytes)) (t : Table Key Bytes) (j a : String)
      → j ≢ jid
      → lookup key_discrete (j, a) (written jid rows t) ≡ lookup key_discrete (j, a) t
  unfolding written
  lookup-written_others [] t j a ne = refl
  lookup-written_others ((b, v) ∷ rows) t j a ne = ground (
    arith,
    lookup-written_others rows (upsert key_discrete (jid, b) v t) j a ne,
    lookup-upsert key_discrete (j, a) (jid, b) v t,
  )

  put_session-quiet :
      {C : Type 0} (a : String) (v : Bytes) (f : Faults) (s : Conn SignalDb C)
      → NoFaults f
      → put_session jid a v f s ≡ (
        ok tt,
        record s {
          db = record s.db { sessions = upsert key_discrete (jid, a) v s.db.sessions };
          clock = s.clock + 1;
        },
      )
  unfolding put_session
  put_session-quiet a v f s quiet = exec-quiet _ f s _ (quiet s.clock) refl

  put_each_session-quiet :
      {C : Type 0} (rows : List (String × Bytes)) (f : Faults) (s : Conn SignalDb C)
      → NoFaults f
      → (n : ℕ) × (put_each_session jid rows f s ≡ (
        ok tt,
        record s { db = record s.db { sessions = written jid rows s.db.sessions }; clock = n },
      ))
  unfolding put_each_session written
  put_each_session-quiet [] f s quiet = (s.clock, refl)
  put_each_session-quiet ((a, v) ∷ rows) f s quiet =
      let (n, e) = put_each_session-quiet rows f _ quiet in
      (
        n,
        bind-ok (put_session jid a v) (λ _. put_each_session jid rows) f s tt _
              (put_session-quiet a v f s quiet)
            ∙ e,
      )

module _ (codec : Codec) (sync : SyncMap (Entry codec.Session)) (jid : String) where
  open codec use {Session, serialize}
  open sync use {M, get, iter, clear}

  abbrev dirty_at : Option (Entry Session) → Option Bytes
  dirty_at none = none
  dirty_at (some e) = if e.dirty then some (serialize e.session) else none

  lookup-dirty_sessions :
      (t : Table String (Entry Session)) (a : String)
      → Distinct string_discrete t
      → lookup string_discrete a (dirty_sessions codec sync jid t)
        ≡ dirty_at (lookup string_discrete a t)
  unfolding dirty_sessions lookup
  lookup-dirty_sessions [] a d = refl
  lookup-dirty_sessions ((b, e) ∷ t) a d = ground (arith, lookup-dirty_sessions t a d.1)

  dirty_sessions-Distinct :
      (t : Table String (Entry Session))
      → Distinct string_discrete t
      → Distinct string_discrete (dirty_sessions codec sync jid t)
  unfolding dirty_sessions
  dirty_sessions-Distinct [] d = tt
  dirty_sessions-Distinct ((b, e) ∷ t) d =
      ground (arith, dirty_sessions-Distinct t d.1, lookup-dirty_sessions t b d.1)

  -- What a flush of the cache `m` leaves of the table `t`.
  pub record Flushed (t : Table Key Bytes) (m : M) (t' : Table Key Bytes) : Type 0 where
    pub rows :
        (a : String)
        → lookup key_discrete (jid, a) t'
          ≡ covered codec sync jid (get m a) (lookup key_discrete (jid, a) t)
    pub others :
        (j a : String) → j ≢ jid → lookup key_discrete (j, a) t' ≡ lookup key_discrete (j, a) t

  written-Flushed :
      (t : Table Key Bytes) (m : M)
      → Flushed t m (written jid (dirty_sessions codec sync jid (iter m)) t)
  written-Flushed t m =
      let ds = dirty_sessions codec sync jid (iter m) in
      let unique = dirty_sessions-Distinct (iter m) (sync.iter-Distinct m) in
      record {
        rows = λ a. ground (
          arith,
          lookup-written jid ds t a unique,
          lookup-dirty_sessions (iter m) a (sync.iter-Distinct m),
          sync.lookup-iter m a,
        );
        others = λ j a ne. lookup-written_others jid ds t j a ne;
      }

  committed-sessions :
      (rows : List (String × Bytes)) (f : Faults) (s : State codec sync jid)
      {r : Result (Unit {0}) × State codec sync jid}
      → NoFaults f
      → Outcome (put_each_session jid rows) f s r
      → r.0 ≡ ok tt
      → r.1.db.sessions ≡ written jid rows s.db.sessions
  committed-sessions rows f s quiet (not_begun e c d m) o = absurd (cc)
  committed-sessions rows f s quiet (rolled_back n e c d m) o = absurd (cc)
  committed-sessions rows f s quiet (committed n c e d m) o =
      let (k, done) = put_each_session-quiet jid rows f (record s { clock = n }) quiet in
      ap (λ (x : SignalDb). x.sessions) (d ∙ ap (λ x. x.1.db) done)

  module _ (txn : Txn SignalDb (Context codec sync jid)) (f : Faults) (quiet : NoFaults f) where
    always_ok :
        (rows : List (String × Bytes)) (s : State codec sync jid)
        → (put_each_session jid rows f s).0 ≡ ok tt
    always_ok rows s =
        let (k, done) = put_each_session-quiet jid rows f s quiet in ap (λ x. x.0) done

    flushed :
        (rows : List (String × Bytes)) (s : State codec sync jid)
        → ((flush codec sync jid txn rows f s).0 ≡ ok tt)
          × ((flush codec sync jid txn rows f s).1.db.sessions ≡ written jid rows s.db.sessions)
    unfolding written put_many_sessions
    flushed [] s = (refl, refl)
    flushed (x ∷ rows) s =
        let done =
          txn.progress (put_each_session jid (x ∷ rows)) f s quiet
            (λ n. always_ok (x ∷ rows) (record s { clock = n })) in
        (rw done, committed-sessions (x ∷ rows) f s quiet (txn.outcome _ f s) done)

    put_at-some :
        (m : M) (s : State codec sync jid)
        → put_at codec sync jid txn (some m) f s ≡ (
          ok tt,
          record (flush codec sync jid txn (dirty_sessions codec sync jid (iter m)) f s).1 {
            mem = some (clear m);
          },
        )
    unfolding put_at
    put_at-some m s =
        let rows = dirty_sessions codec sync jid (iter m) in
        bind-ok (flush codec sync jid txn rows) (λ _. modify (λ _. some (clear m))) f s tt
          (flush codec sync jid txn rows f s).1
          (λ i. ((flushed rows s).0 i, (flush codec sync jid txn rows f s).1))

    -- With no failing statement a flush succeeds, writes the dirty sessions and empties the cache.
    pub put_cached_sessions-quiet :
        (s : State codec sync jid) (m : M)
        → s.mem ≡ some m
        → ((put_cached_sessions codec sync jid txn f s).0 ≡ ok tt)
          × Flushed s.db.sessions m (put_cached_sessions codec sync jid txn f s).1.db.sessions
          × ((put_cached_sessions codec sync jid txn f s).1.mem ≡ some (clear m))
    unfolding put_cached_sessions
    put_cached_sessions-quiet s m e = rw e (
        rw put_at-some (
          refl,
          rw ((flushed (dirty_sessions codec sync jid (iter m)) (record s { mem = some m })).1)
              (written-Flushed s.db.sessions m),
          refl,
        ))
