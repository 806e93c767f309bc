-- ===== src/Signal/Refinement.antt =====
-- A device with a session cache, written back at the end, behaves as one without.
use zev_bot.Prelude.{
  ◌+◌, String, ◌≡◌, refl, sym, ap₂, Option, none, some, List, [], ◌∷◌, arith, string_discrete,
  Option-cases, inl, inr, ◌∙◌,
}
use zev_bot.Table.{Table, Distinct, lookup}
use zev_bot.Sql.{Result, ok, Faults, tick, query_rows-quiet, Txn}
use zev_bot.Signal.Tables.{Bytes, Key, SignalDb, key_discrete}
use zev_bot.Signal.Store.{get_many_sessions, select_many}
use zev_bot.Signal.Cache.{
  Codec, SyncMap, Entry, Context, get_cached_session, with_cached_sessions, put_cached_sessions,
  prefetched,
}
use zev_bot.Signal.Prefetch.{
  rows_found, rows_found-Right, rows_found-Distinct, prefetched-clean, Right,
}
use zev_bot.Signal.Flush.{put_cached_sessions-quiet, Flushed}
use zev_bot.Signal.Simulation.{
  Call, load, store, NoFaults, State, perform, run, Sim, load_row, load_cached, store_row,
  store_cached, hit_agrees, miss_agrees, store-Sim,
}

module _ (codec : Codec) (sync : SyncMap (Entry codec.Session)) (jid : String) where
  open codec use {Session, serialize}
  open sync use {M, get, set}

  abbrev S : Type 0
  S = State codec sync jid

  -- A device with a cache, and one without.
  record Related (c d : S) : Type 0 where
    m : M
    cached : c.mem ≡ some m
    plain : d.mem ≡ none
    sim : Sim codec sync jid c.db.sessions m d.db.sessions

  -- One call has the same reply on both, and relates the states after it.
  Agree : Call Session → Faults → S → S → Type 0
  Agree call f c d =
      ((perform codec sync jid call f c).0 ≡ (perform codec sync jid call f d).0)
      × Related (perform codec sync jid call f c).1 (perform codec sync jid call f d).1

  agree :
      (call : Call Session) (f : Faults) (c d c' d' : S) (r r' : Result (Option Session))
      → perform codec sync jid call f c ≡ (r, c')
      → perform codec sync jid call f d ≡ (r', d')
      → r ≡ r'
      → Related c' d'
      → Agree call f c d
  unfolding Agree
  agree call f c d c' d' r r' p q e h = rw (p, q) (e, h)

  module _ (f : Faults) (quiet : NoFaults f) (c d : S) (h : Related c d) (a : String) where
    no_entry : get_cached_session codec sync jid d.mem a ≡ none
    unfolding get_cached_session
    no_entry = ground (arith, h.plain)

    missed : get h.m a ≡ none → get_cached_session codec sync jid c.mem a ≡ none
    unfolding get_cached_session
    missed miss = ground (arith, h.cached)

    found :
        (e : Entry Session)
        → get h.m a ≡ some e
        → get_cached_session codec sync jid c.mem a ≡ some e.session
    unfolding get_cached_session
    found e hit = ground (arith, h.cached)

    load-Agree : Agree (load a) f c d
    load-Agree = elim (Option-cases (get h.m a)) [
      | inl miss ↦
          agree (load a) f c d _ _ _ _ (load_row codec sync jid f c quiet a (missed miss))
            (load_row codec sync jid f d quiet a no_entry)
            (rw (miss_agrees codec sync jid _ _ h.m h.sim a miss))
            (record { m = h.m; cached = h.cached; plain = h.plain; sim = h.sim })
      | inr (e, hit) ↦
          agree (load a) f c d _ _ _ _
            (load_cached codec sync jid f c quiet a e.session (found e hit))
            (load_row codec sync jid f d quiet a no_entry)
            (rw (hit_agrees codec sync jid _ _ h.m h.sim a e hit))
            (record { m = h.m; cached = h.cached; plain = h.plain; sim = h.sim })
    ]

    store-Agree : (v : Session) → Agree (store a v) f c d
    store-Agree v =
        agree (store a v) f c d _ _ _ _ (store_cached codec sync jid f c quiet a v h.m h.cached)
          (store_row codec sync jid f d quiet a v h.plain) refl
          (record {
            m = _;
            cached = refl;
            plain = h.plain;
            sim = store-Sim codec sync jid _ _ h.m h.sim a v;
          })

  perform-Agree :
      (f : Faults) (call : Call Session) (c d : S) → NoFaults f → Related c d → Agree call f c d
  perform-Agree f (load a) c d quiet h = load-Agree f quiet c d h a
  perform-Agree f (store a v) c d quiet h = store-Agree f quiet c d h a v

  run-Agree :
      (f : Faults) (cs : List (Call Session)) (c d : S)
      → NoFaults f
      → Related c d
      → ((run codec sync jid cs f c).0 ≡ (run codec sync jid cs f d).0)
        × Related (run codec sync jid cs f c).1 (run codec sync jid cs f d).1
  unfolding run Agree
  run-Agree f [] c d quiet h = (refl, h)
  run-Agree f (call ∷ cs) c d quiet h =
      let (same, next) = perform-Agree f call c d quiet h in
      let (rest, last) = run-Agree f cs _ _ quiet next in (ap₂ ◌∷◌ same rest, last)

  -- A cache that was just filled from the table relates to the table itself.
  enter-Related :
      (c d : S) (t : Table String (Option Bytes))
      → Distinct string_discrete t
      → Right jid c.db.sessions t
      → c.mem ≡ some (sync.new_with_data (prefetched codec sync jid t).1)
      → d.mem ≡ none
      → c.db ≡ d.db
      → Related c d
  enter-Related c d t distinct right cached plain same =
      let w = (prefetched codec sync jid t).1 in
      let entry = sync.get-new_with_data w in
      let clean = prefetched-clean codec sync jid t c.db.sessions in
      record {
        m = sync.new_with_data w;
        cached = cached;
        plain = plain;
        sim = rw (← same) (record {
          rows = λ a. elim (Option-cases (get (sync.new_with_data w) a)) [
            | inl miss ↦ rw miss
            | inr (e, hit) ↦ rw (hit, (clean a e distinct right (sym (entry a) ∙ hit)).0)
          ];
          others = λ j a ne. refl;
          clean = λ a e hit dirty. (clean a e distinct right (sym (entry a) ∙ hit)).1;
        });
      }

  module _ (f : Faults) (quiet : NoFaults f) (a : String) (as₁ : List String) (s : S) where
    abbrev prefetch_rows : Table String (Option Bytes)
    prefetch_rows = rows_found jid (a ∷ as₁) s.db.sessions

    got_many : get_many_sessions jid (a ∷ as₁) f s ≡ (ok prefetch_rows, tick s)
    unfolding get_many_sessions
    got_many = ground (
      arith,
      query_rows-quiet (λ (d : SignalDb). select_many jid (a ∷ as₁) d.sessions) f s (quiet s.clock),
    )

    entered : with_cached_sessions codec sync jid (a ∷ as₁) f s ≡ (
      ok (prefetched codec sync jid prefetch_rows).0,
      record s {
        mem = some (sync.new_with_data (prefetched codec sync jid prefetch_rows).1);
        clock = s.clock + 1;
      },
    )
    unfolding with_cached_sessions
    entered = rw got_many

  -- Without a cache no call makes one.
  perform-plain :
      (f : Faults) (call : Call Session) (s : S)
      → NoFaults f
      → s.mem ≡ none
      → (perform codec sync jid call f s).1.mem ≡ none
  perform-plain f (load a) s quiet e =
      rw (load_row codec sync jid f s quiet a (unfold get_cached_session in rw e)) e
  perform-plain f (store a v) s quiet e = rw (store_row codec sync jid f s quiet a v e) e

  run-plain :
      (f : Faults) (cs : List (Call Session)) (s : S)
      → NoFaults f
      → s.mem ≡ none
      → (run codec sync jid cs f s).1.mem ≡ none
  unfolding run
  run-plain f [] s quiet e = e
  run-plain f (call ∷ cs) s quiet e =
      run-plain f cs (perform codec sync jid call f s).1 quiet (perform-plain f call s quiet e)

  -- With no cache a flush does nothing.
  flush-plain :
      (txn : Txn SignalDb (Context codec sync jid)) (f : Faults) (s : S)
      → s.mem ≡ none
      → put_cached_sessions codec sync jid txn f s ≡ (ok tt, s)
  unfolding put_cached_sessions
  flush-plain txn f s e = ground arith

  -- A flush of the cache leaves the table that the other device has.
  Flushed-same :
      (t t₁ t' : Table Key Bytes) (m : M)
      → Flushed codec sync jid t m t₁
      → Sim codec sync jid t m t'
      → (k : Key) → lookup key_discrete k t₁ ≡ lookup key_discrete k t'
  Flushed-same t t₁ t' m h sim (j, a) = elim (string_discrete j jid) [
    | yes own ↦ rw own (h.rows a ∙ sym (sim.rows a))
    | no other ↦ h.others j a other ∙ sym (sim.others j a other)
  ]

  -- Replies, the result of the flush, and the tables at the end.
  abbrev pub SameRun :
      Txn SignalDb (Context codec sync jid) → List (Call Session) → Faults → S → S → Type 0
  SameRun txn cs f c d =
      ((run codec sync jid cs f c).0 ≡ (run codec sync jid cs f d).0)
      × ((put_cached_sessions codec sync jid txn f (run codec sync jid cs f c).1).0 ≡ ok tt)
      × ((k : Key)
          → lookup key_discrete k
              (put_cached_sessions codec sync jid txn f (run codec sync jid cs f c).1).1.db.sessions
            ≡ lookup key_discrete k (run codec sync jid cs f d).1.db.sessions)

  Related-SameRun :
      (txn : Txn SignalDb (Context codec sync jid)) (cs : List (Call Session)) (f : Faults)
      (c d : S)
      → NoFaults f
      → Related c d
      → SameRun txn cs f c d
  Related-SameRun txn cs f c d quiet h =
      let (same, last) = run-Agree f cs c d quiet h in
      let c' = (run codec sync jid cs f c).1 in
      let (done, rows, _) =
        put_cached_sessions-quiet codec sync jid txn f quiet c' last.m last.cached in
      (same, done, λ k. Flushed-same _ _ _ last.m rows last.sim k)

-- Loads and stores through a prefetched session cache that is flushed at the end: the client gets the
-- reply, or the error, that it would get without the cache for every call, the flush succeeds, and the
-- table has in every row, of this device and of the others, what it would have without the cache.
-- No statement fails, and the sessions have distinct keys.
pub session_cache-SameRun :
    (codec : Codec) (sync : SyncMap (Entry codec.Session)) (jid : String)
    (txn : Txn SignalDb (Context codec sync jid)) (addresses : List String)
    (cs : List (Call codec.Session)) (f : Faults) (s : State codec sync jid)
    → NoFaults f
    → s.mem ≡ none
    → Distinct key_discrete s.db.sessions
    → SameRun codec sync jid txn cs f (with_cached_sessions codec sync jid addresses f s).1 s
unfolding with_cached_sessions
session_cache-SameRun codec sync jid txn [] cs f s quiet e d =
    rw
      (flush-plain codec sync jid txn f (run codec sync jid cs f s).1
        (run-plain codec sync jid f cs s quiet e))
      (refl, refl, λ k. refl)
session_cache-SameRun codec sync jid txn (a ∷ as₁) cs f s quiet e d =
    Related-SameRun codec sync jid txn cs f _ s quiet (
      rw (entered codec sync jid f quiet a as₁ s) (
        enter-Related codec sync jid _ s _ (rows_found-Distinct jid (a ∷ as₁) s.db.sessions)
          (rows_found-Right jid (a ∷ as₁) s.db.sessions d) refl e refl))
