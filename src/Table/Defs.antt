-- ===== src/Table/Defs.antt =====
-- The operations of a keyed table.
use zev_bot.Prelude.{◌≡◌, ite, Option, none, some, List, [], ◌∷◌, Bool, if◌then◌else◌}
use mathlib.Core.List.{lookup}

abbrev pub Table {ℓ} : Type ℓ → Type ℓ → Type ℓ
Table K V = List (K × V)

module _ {ℓ} {K V : Type ℓ} where
  -- `DELETE … WHERE p`, `slices.DeleteFunc`
  unfoldable pub delete_where : (K → V → Bool) → Table K V → Table K V
  delete_where p [] = []
  delete_where p ((j, w) ∷ t) = let rest = delete_where p t in if p j w then rest else (j, w) ∷ rest

  -- What a row shows after `delete_where p`.
  abbrev pub kept : (K → V → Bool) → K → Option V → Option V
  kept p j none = none
  kept p j (some w) = if p j w then none else some w

  module _ (dec : Discrete K) where
    -- `m[k] = v`, `INSERT … ON CONFLICT (k) DO UPDATE`
    unfoldable pub upsert : K → V → Table K V → Table K V
    upsert k v [] = (k, v) ∷ []
    upsert k v ((j, w) ∷ t) = ite (dec k j) ((k, v) ∷ t) ((j, w) ∷ upsert k v t)

    -- `delete(m, k)`
    unfoldable pub delete : K → Table K V → Table K V
    delete k [] = []
    delete k ((j, w) ∷ t) = let rest = delete k t in ite (dec k j) rest ((j, w) ∷ rest)

    -- A primary key: no key stands in two rows.
    abbrev pub Distinct : Table K V → Type ℓ
    Distinct [] = Unit
    Distinct ((j, w) ∷ t) = (lookup dec j t ≡ none) × Distinct t
