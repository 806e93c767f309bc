-- ===== src/Signal/Simulation.antt =====
-- A device with a session cache behaves as one without: the calls of a client, and the relation
-- between the two states while it makes them.
use zev_bot.Prelude.{
  ℕ, ◌+◌, String, ◌≡◌, ◌≢◌, Option, none, some, List, [], ◌∷◌, true, false, arith, if◌then◌else◌,
}
use zev_bot.Table.{Table, lookup, upsert, lookup-upsert}
use zev_bot.Sql.{
  Result, ok, err, wrap, external, Faults, Conn, tick, query_or-quiet, exec, pure, ◌>>=◌, ◌>>◌,
}
use zev_bot.Signal.Tables.{Bytes, Key, SignalDb, key_discrete}
use zev_bot.Signal.Store.{get_session, put_session}
use zev_bot.Signal.Cache.{
  Codec, SyncMap, Entry, Context, Device, get_cached_session, load_session, store_session, from_row,
}
use zev_bot.Signal.Prefetch.{read}
use mathlib.Core.Option

pub data Call (S : Type 0) : Type 0 where
  load : String → Call S
  store : String → S → Call S

abbrev pub NoFaults : Faults → Type 0
NoFaults f = (n : ℕ) → f n ≡ none

module _ (codec : Codec) (sync : SyncMap (Entry codec.Session)) (jid : String) where
  open codec use {Session, serialize}
  open sync use {M, get, set}

  abbrev pub State : Type 0
  State = Conn SignalDb (Context codec sync jid)

  -- The reply of a call: the session that a load returns, or nothing.
  unfoldable pub perform : Call Session → Device codec sync jid (Option Session)
  perform (load a) = do s ← load_session codec sync jid a; pure (some s)
  perform (store a s) = do store_session codec sync jid a s; pure none

  -- Calls in a row. The client sees an error and goes on.
  unfoldable pub run : List (Call Session) → Faults → State → List (Result (Option Session)) × State
  run [] f s = ([], s)
  run (c ∷ cs) f s = let (r, s') = perform c f s in let (rs, s'') = run cs f s' in (r ∷ rs, s'')

  abbrev pub readable : Option Session → Result Session
  readable none = err (wrap "failed to deserialize session" (external 0))
  readable (some s) = ok s

  -- What a load from the table returns.
  abbrev pub loaded : Option Bytes → Result Session
  loaded row = readable (read codec row)

  -- What the table would hold if the cache were written back.
  abbrev pub covered : Option (Entry Session) → Option Bytes → Option Bytes
  covered none row = row
  covered (some e) row = if e.dirty then some (serialize e.session) else row

  -- The cache `m` over the table `t`, against the table `t'` of a device without a cache.
  pub record Sim (t : Table Key Bytes) (m : M) (t' : Table Key Bytes) : Type 0 where
    pub rows :
        (a : String)
        → lookup key_discrete (jid, a) t' ≡ covered (get m a) (lookup key_discrete (jid, a) t)
    pub others :
        (j a : String) → j ≢ jid → lookup key_discrete (j, a) t' ≡ lookup key_discrete (j, a) t
    pub clean :
        (a : String) (e : Entry Session)
        → get m a ≡ some e
        → e.dirty ≡ false
        → read codec (lookup key_discrete (jid, a) t) ≡ some e.session

  from_row-loaded :
      (o : Option Bytes) (f : Faults) (s : State) → from_row codec sync jid o f s ≡ (loaded o, s)
  unfolding from_row read
  from_row-loaded o f s = ground arith

  module _ (f : Faults) (s : State) (quiet : NoFaults f) (a : String) where
    fetched : get_session jid a f s ≡ (ok (lookup key_discrete (jid, a) s.db.sessions), tick s)
    unfolding get_session
    fetched = ground (
      arith,
      quiet s.clock,
      query_or-quiet none
          (λ (d : SignalDb). Option.map some (lookup key_discrete (jid, a) d.sessions)) f s,
    )

    -- A load that finds no entry in a cache, or no cache.
    pub load_row :
        get_cached_session codec sync jid s.mem a ≡ none
        → perform (load a) f s ≡ (
          elim (read codec (lookup key_discrete (jid, a) s.db.sessions)) [
            | none ↦ err (wrap "failed to deserialize session" (external 0))
            | some v ↦ ok (some v)
          ],
          tick s,
        )
    unfolding perform load_session
    load_row e =
        ground
          (arith, fetched, from_row-loaded (lookup key_discrete (jid, a) s.db.sessions) f (tick s))

    pub load_cached :
        (v : Session)
        → get_cached_session codec sync jid s.mem a ≡ some v
        → perform (load a) f s ≡ (ok (some v), s)
    unfolding perform load_session
    load_cached v e = ground arith

    pub store_row :
        (v : Session)
        → s.mem ≡ none
        → perform (store a v) f s ≡ (
          ok none,
          record s {
            db = record s.db {
              sessions = upsert key_discrete (jid, a) (serialize v) s.db.sessions;
            };
            clock = s.clock + 1;
          },
        )
    unfolding perform store_session put_session exec
    store_row v e = ground (arith, quiet s.clock)

    pub store_cached :
        (v : Session) (m : M)
        → s.mem ≡ some m
        → perform (store a v) f s ≡ (
          ok none,
          record s { mem = some (set m a (record { dirty = true; found = true; session = v })) },
        )
    unfolding perform store_session
    store_cached v m e = ground arith

  module _ (t t' : Table Key Bytes) (m : M) (h : Sim t m t') (a : String) where
    -- A load through the cache reads what a load without it does.
    pub hit_agrees :
        (e : Entry Session)
        → get m a ≡ some e
        → read codec (lookup key_discrete (jid, a) t') ≡ some e.session
    unfolding read
    hit_agrees e hit =
        ground (arith, h.rows a, h.clean a e hit, codec.deserialize-serialize e.session)

    pub miss_agrees :
        get m a ≡ none → lookup key_discrete (jid, a) t' ≡ lookup key_discrete (jid, a) t
    miss_agrees miss = ground (arith, h.rows a)

    -- A store keeps the relation: the entry is dirty on one side, the row is written on the other.
    pub store-Sim :
        (v : Session)
        → Sim t
            (set m a (record { dirty = true; found = true; session = v }))
            (upsert key_discrete (jid, a) (serialize v) t')
    store-Sim v =
        let e : Entry Session = record { dirty = true; found = true; session = v } in
        record {
          rows = λ b. ground (
            arith,
            h.rows b,
            sync.get-set m b a e,
            lookup-upsert key_discrete (jid, b) (jid, a) (serialize v) t',
          );
          others = λ j b ne.
              ground (
                arith,
                h.others j b ne,
                lookup-upsert key_discrete (j, b) (jid, a) (serialize v) t',
              );
          clean = λ b x hit same. ground (arith, h.clean b x, sync.get-set m b a e);
        }
