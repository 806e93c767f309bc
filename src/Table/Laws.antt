-- ===== src/Table/Laws.antt =====
-- What each operation shows to `lookup`, and that keys stay distinct.
use zev_bot.Prelude.{◌≡◌, refl, ite, none, some, [], ◌∷◌, Bool, arith}
use zev_bot.Table.Defs.{Table, delete_where, kept, upsert, delete, Distinct}
use mathlib.Core.List.{lookup}

module _ {ℓ} {K V : Type ℓ} (dec : Discrete K) where
  pub lookup-upsert :
      (j k : K) (v : V) (t : Table K V)
      → lookup dec j (upsert dec k v t) ≡ ite (dec k j) (some v) (lookup dec j t)
  unfolding lookup upsert
  lookup-upsert j k v [] = ground arith
  lookup-upsert j k v ((i, w) ∷ t) = ground (arith, lookup-upsert j k v t)

  pub lookup-delete :
      (j k : K) (t : Table K V)
      → lookup dec j (delete dec k t) ≡ ite (dec k j) none (lookup dec j t)
  unfolding lookup delete
  lookup-delete j k [] = ground arith
  lookup-delete j k ((i, w) ∷ t) = ground (arith, lookup-delete j k t)

  pub lookup-delete_where :
      (p : K → V → Bool) (j : K) (t : Table K V)
      → Distinct dec t
      → lookup dec j (delete_where p t) ≡ kept p j (lookup dec j t)
  unfolding lookup delete_where
  lookup-delete_where p j [] d = refl
  lookup-delete_where p j ((i, w) ∷ t) d = ground (arith, lookup-delete_where p j t d.1)

  pub upsert-Distinct :
      (k : K) (v : V) (t : Table K V) → Distinct dec t → Distinct dec (upsert dec k v t)
  unfolding lookup upsert
  upsert-Distinct k v [] d = ground arith
  upsert-Distinct k v ((i, w) ∷ t) d =
      ground (arith, upsert-Distinct k v t d.1, lookup-upsert i k v t)

  pub delete-Distinct : (k : K) (t : Table K V) → Distinct dec t → Distinct dec (delete dec k t)
  unfolding delete
  delete-Distinct k [] d = tt
  delete-Distinct k ((i, w) ∷ t) d = ground (arith, delete-Distinct k t d.1, lookup-delete i k t)

  pub delete_where-Distinct :
      (p : K → V → Bool) (t : Table K V) → Distinct dec t → Distinct dec (delete_where p t)
  unfolding delete_where
  delete_where-Distinct p [] d = tt
  delete_where-Distinct p ((i, w) ∷ t) d =
      ground (arith, delete_where-Distinct p t d.1, lookup-delete_where p i t d.1)
