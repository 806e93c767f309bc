-- ===== src/Device/Life.antt =====
-- The life of a device that `NewDevice` or the table gives (store/store.go): it is fresh, then in use,
-- then deleted.
use zev_bot.Prelude.{
  ◌⊎◌, inl, inr, ◌≡◌, refl, ap, sym, subst, ◌∙◌, String, Option, none, some, Bool, true, false,
  arith, if◌then◌else◌, ℕ,
}
use zev_bot.Sql.{Result, ok, err, continue, ◌>>=◌, exec-mem, device_deleted, Conn, Faults}
use zev_bot.Jid.{Jid, empty_jid}
use zev_bot.Signal.{Bytes}
use zev_bot.Device.Types.{
  KeyPair, PreKey, Account, unset, sql_store, noop_store, Shared, unshared, of_container,
  noop_shared, Device, DeviceDb,
}
use zev_bot.Device.Noop.{noop_refused}
use zev_bot.Device.Refusal.{SqlStores, AllRefuse, noop-AllRefuse}
use zev_bot.Device.Container.{
  all_stores, new_device, initialize_device, ensure_initialized, insert_device, row_of, put_row,
  put_device, delete_row, delete_device, without_device,
}
use zev_bot.Device.Methods.{call_shared, device_save, device_delete, after_delete, mark_deleted}

-- Where a device stands: not saved yet, in use under a JID, or deleted.
pub data Stage (d : Device) : Type 0 where
  fresh :
      d.deleted ≡ false
      → d.initialized ≡ false
      → d.stores ≡ all_stores unset
      → d.container ≡ of_container
      → Stage d
  in_use :
      (id : Jid)
      → d.deleted ≡ false
      → d.initialized ≡ true
      → d.id ≡ some id
      → d.stores ≡ all_stores (sql_store id)
      → d.container ≡ of_container
      → Stage d
  dead :
      d.deleted ≡ true
      → d.id ≡ none
      → d.lid ≡ empty_jid
      → d.stores ≡ all_stores (noop_store device_deleted)
      → Stage d

-- A call on the device, by any run of the statements; the pairing, which is the library's, gives the
-- JID, the LID and the account to a device that is not saved yet.
pub data Step (text : Jid → String) : Conn DeviceDb Device → Conn DeviceDb Device → Type 0 where
  saves : (f : Faults) (s : Conn DeviceDb Device) → Step text s (device_save f s).1
  deletes : (f : Faults) (s : Conn DeviceDb Device) → Step text s (device_delete text f s).1
  pairs :
      (id lid : Jid) (a : Account) (platform business_name : String) (s : Conn DeviceDb Device)
      → s.mem.deleted ≡ false
      → s.mem.initialized ≡ false
      → Step text s (record s {
        mem = record s.mem {
          id = some id;
          lid = lid;
          account = some a;
          platform = platform;
          business_name = business_name;
        };
      })

pub data Steps (text : Jid → String) : Conn DeviceDb Device → Conn DeviceDb Device → Type 0 where
  start : (s : Conn DeviceDb Device) → Steps text s s
  next : (s s' s'' : Conn DeviceDb Device) → Steps text s s' → Step text s' s'' → Steps text s s''

-- What a save makes of the device.
abbrev pub Saved : Device → Device → Type 0
Saved d d' =
    (d' ≡ d)
    ⊎ ((id : Jid) × (d.deleted ≡ false) × (d.id ≡ some id) × (d' ≡ ensure_initialized id d))

device_save-Saved : (f : Faults) (s : Conn DeviceDb Device) → Saved s.mem (device_save f s).1.mem
unfolding device_save call_shared put_device put_row
device_save-Saved f s = at s.mem.deleted s.mem.container refl refl
  where
    put :
        (o : Option Jid) (b : Option Account)
        → s.mem.deleted ≡ false
        → s.mem.id ≡ o
        → Saved s.mem (put_row o b f s).1.mem
    put none b alive e = inl refl
    put (some id) none alive e = inl refl
    put (some id) (some a) alive e = inr (
      id,
      alive,
      e,
      ap (ensure_initialized id) (exec-mem (insert_device id (row_of s.mem a)) f s),
    )

    at :
        (b : Bool) (k : Shared)
        → s.mem.deleted ≡ b
        → s.mem.container ≡ k
        → Saved s.mem
            (if b then (err device_deleted, s) else call_shared put_device noop_refused k f s).1.mem
    at true k e h = inl refl
    at false unshared e h = inl refl
    at false of_container e h = put s.mem.id s.mem.account e refl
    at false (noop_shared x) e h = inl refl

abbrev pub Dropped : Device → Device → Type 0
Dropped d d' = (d' ≡ d) ⊎ ((d.deleted ≡ false) × (d' ≡ after_delete d))

device_delete-Dropped :
    (text : Jid → String) (f : Faults) (s : Conn DeviceDb Device)
    → Dropped s.mem (device_delete text f s).1.mem
unfolding device_delete call_shared delete_device delete_row
device_delete-Dropped text f s = at s.mem.deleted s.mem.container refl
  where
    deletes : (o : Option Jid) → (delete_row text o f s).1.mem ≡ s.mem
    deletes none = refl
    deletes (some id) = exec-mem (λ db. ok (without_device text id db)) f s

    marked :
        (m : Result (Unit {0}) × Conn DeviceDb Device)
        → s.mem.deleted ≡ false
        → m.1.mem ≡ s.mem
        → Dropped s.mem (continue m.0 mark_deleted f m.1).1.mem
    marked (ok u, c) alive e = inr (alive, ap after_delete e)
    marked (err x, c) alive e = inl e

    at :
        (b : Bool) (k : Shared)
        → s.mem.deleted ≡ b
        → Dropped s.mem
            (if b
              then (ok tt, s)
              else (call_shared (delete_device text) noop_refused k >>= mark_deleted) f s).1.mem
    at true k e = inl refl
    at false unshared e = inl refl
    at false of_container e = marked _ e (deletes s.mem.id)
    at false (noop_shared x) e = inl refl

save-Stage : (d d' : Device) → Stage d → Saved d d' → Stage d'
save-Stage d d' g (inl e) = subst Stage (sym e) g
save-Stage d d' (fresh alive i st k) (inr (id, a, h, e)) =
    subst Stage (sym (e ∙ ap (λ b. if b then d else initialize_device id d) i))
      (in_use id alive refl h refl refl)
save-Stage d d' (in_use j alive i h st k) (inr (id, a, h', e)) =
    subst Stage (sym (e ∙ ap (λ b. if b then d else initialize_device id d) i))
      (in_use j alive i h st k)
save-Stage d d' (dead gone i l st) (inr (id, a, h, e)) = absurd (ground (arith, gone, a))

delete-Stage : (d d' : Device) → Stage d → Dropped d d' → Stage d'
delete-Stage d d' g (inl e) = subst Stage (sym e) g
delete-Stage d d' g (inr (a, e)) = subst Stage (sym e) (dead refl refl refl refl)

Step-Stage :
    (text : Jid → String) (s s' : Conn DeviceDb Device)
    → Step text s s'
    → Stage s.mem
    → Stage s'.mem
Step-Stage text _ _ (saves f s) g = save-Stage s.mem _ g (device_save-Saved f s)
Step-Stage text _ _ (deletes f s) g = delete-Stage s.mem _ g (device_delete-Dropped text f s)
Step-Stage text _ _ (pairs id lid a p b s alive i) (fresh x y st k) = fresh x y st k
Step-Stage text _ _ (pairs id lid a p b s alive i) (in_use j x y h st k) =
    absurd (ground (arith, i, y))
Step-Stage text _ _ (pairs id lid a p b s alive i) (dead gone h l st) =
    absurd (ground (arith, alive, gone))

-- Whatever is called on a device from `NewDevice`, or on one that is in use already: it is not saved
-- yet and has no stores, or it is in use and all its stores are those of its JID, or it is deleted, has
-- no JID, and all its stores refuse.
pub Steps-Stage :
    (text : Jid → String) (s s' : Conn DeviceDb Device)
    → Steps text s s'
    → Stage s.mem
    → Stage s'.mem
Steps-Stage text _ _ (start s) g = g
Steps-Stage text _ _ (next s s' s'' steps last) g =
    Step-Stage text s' s'' last (Steps-Stage text s s' steps g)

pub new_device-Stage :
    (noise identity : KeyPair) (registration_id : ℕ) (secret : Bytes) (k : PreKey)
    → Stage (new_device noise identity registration_id secret k)
new_device-Stage noise identity registration_id secret k = fresh refl refl refl refl

dead-Step :
    (text : Jid → String) (s s' : Conn DeviceDb Device)
    → Step text s s'
    → s.mem.deleted ≡ true
    → s' ≡ s
unfolding device_save device_delete
dead-Step text _ _ (saves f s) g = ground (arith, g)
dead-Step text _ _ (deletes f s) g = ground (arith, g)
dead-Step text _ _ (pairs id lid a p b s alive i) g = absurd (ground (arith, alive, g))

dead-Steps :
    (text : Jid → String) (s s' : Conn DeviceDb Device)
    → Steps text s s'
    → s.mem.deleted ≡ true
    → s' ≡ s
dead-Steps text _ _ (start s) gone = refl
dead-Steps text _ _ (next s s' s'' steps last) gone =
    let e = dead-Steps text s s' steps gone in
    dead-Step text s' s'' last (ap (λ c. c.mem.deleted) e ∙ gone) ∙ e

dead-stores :
    (d : Device) → Stage d → d.deleted ≡ true → d.stores ≡ all_stores (noop_store device_deleted)
dead-stores d (fresh alive i st k) gone = absurd (ground (arith, alive, gone))
dead-stores d (in_use j alive i h st k) gone = absurd (ground (arith, alive, gone))
dead-stores d (dead x h l st) gone = st

-- Whatever sequence of Save, Delete and pairing a deleted device goes through, it and the database are as
-- they were and no statement is executed; a save is refused and a delete returns. Whatever the SQLStores
-- and the database of a store are, every method of the twelve stores of the device, which SetAllStores
-- sets, answers with ErrDeviceDeleted, but for the list of all sync keys and the event buffer, which answer
-- blank, and DoDecryptionTxn, which runs its argument; none does anything else. The device comes from
-- `NewDevice` or the table.
pub deleted_device :
    (text : Jid → String) (f : Faults) (s s' : Conn DeviceDb Device) {D C : Type 0}
    (sql : SqlStores D C) (g : Faults) (c : Conn D C)
    → Stage s.mem
    → s.mem.deleted ≡ true
    → Steps text s s'
    → (s' ≡ s)
      × (device_save f s' ≡ (err device_deleted, s))
      × (device_delete text f s' ≡ (ok tt, s))
      × AllRefuse g c sql s'.mem.stores
unfolding device_save device_delete
deleted_device text f s s' sql g c stage gone steps =
    let e = dead-Steps text s s' steps gone in
    (
      e,
      ap (device_save f) e ∙ ground (arith, gone),
      ap (device_delete text f) e ∙ ground (arith, gone),
      subst (AllRefuse g c sql) (sym (ap (λ x. x.mem.stores) e ∙ dead-stores s.mem stage gone))
          (noop-AllRefuse g c sql),
    )
