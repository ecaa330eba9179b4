-- ===== src/Prelude/Maps.antt =====
-- Go maps with string keys, as association lists. Where the program ranges over a map it sorts the
-- keys first, or the order does not reach the result.
use mathlib.Core.Path.{◌≡◌, refl}
use mathlib.Core.Bool.{Bool, true, false, ◌||◌}
use mathlib.Core.Logic.{◌≢◌, ◌⊎◌, inl, inr}
use mathlib.Core.List.{List, [], ◌∷◌}
use mathlib.Core.Option.{Option, none, some}
use native.Mathlib.Omega.{arith}
use stageneth.Prelude.Tests.{if◌then◌else◌, Bool-cases}
use stageneth.Prelude.Words.{Text, equal, equal_iff, before}

abbrev pub Dict {ℓ} : Type ℓ → Type ℓ
Dict V = List (Text × V)

module _ {ℓ} {V : Type ℓ} where
  unfoldable pub lookup : Text → Dict V → Option V
  lookup k [] = none
  lookup k ((j, v) ∷ m) = if equal j k then some v else lookup k m

  unfoldable pub insert : Text → V → Dict V → Dict V
  insert k v [] = (k, v) ∷ []
  insert k v ((j, w) ∷ m) = if equal j k then (k, v) ∷ m else (j, w) ∷ insert k v m

  unfoldable pub remove : Text → Dict V → Dict V
  remove k [] = []
  remove k ((j, w) ∷ m) = if equal j k then remove k m else (j, w) ∷ remove k m

  abbrev pub keys : Dict V → List Text
  keys [] = []
  keys ((k, v) ∷ m) = k ∷ keys m

  pub lookup-insert :
      (k j : Text) (v : V) (m : Dict V)
      → lookup j (insert k v m) ≡ (if equal k j then some v else lookup j m)
  unfolding lookup insert
  lookup-insert k j v [] = refl
  lookup-insert k j v ((i, w) ∷ m) =
      ground (arith, equal_iff k j, equal_iff i k, equal_iff i j, lookup-insert k j v m)

  pub lookup-remove :
      (k j : Text) (m : Dict V) → lookup j (remove k m) ≡ (if equal k j then none else lookup j m)
  unfolding lookup remove
  lookup-remove k j [] = ground arith
  lookup-remove k j ((i, w) ∷ m) =
      ground (arith, equal_iff k j, equal_iff i k, equal_iff i j, lookup-remove k j m)

pub ruleset dict_laws = (lookup-insert, lookup-remove)

-- `m[k]` on a map of strings: a missing key reads as ""
unfoldable pub get_text : Text → Dict Text → Text
get_text k m = elim (lookup k m) [ none ↦ [] | some v ↦ v ]

-- `sort.Strings`
unfoldable pub insert_sorted : Text → List Text → List Text
insert_sorted x [] = x ∷ []
insert_sorted x (y ∷ ys) = if before y x then y ∷ insert_sorted x ys else x ∷ y ∷ ys

unfoldable pub sort_text : List Text → List Text
unfolding insert_sorted
sort_text [] = []
sort_text (x ∷ xs) = insert_sorted x (sort_text xs)

-- `m[k]` on a set, a map to Booleans
unfoldable pub member : Text → List Text → Bool
member k [] = false
member k (x ∷ xs) = equal x k || member k xs

module _ {ℓ} {V : Type ℓ} where
  -- `for k, v := range m { if !p(k, v) { delete(m, k) } }`
  unfoldable pub select_entries : (Text → V → Bool) → Dict V → Dict V
  select_entries p [] = []
  select_entries p ((k, v) ∷ m) = if p k v then (k, v) ∷ select_entries p m else select_entries p m

  -- No key stands twice, as in every Go map.
  abbrev pub IsMap : Dict V → Type ℓ
  IsMap [] = Unit
  IsMap ((k, v) ∷ m) = (lookup k m ≡ none) × IsMap m

  abbrev pub keep_if : Bool → V → Option V
  keep_if b v = if b then some v else none

  abbrev pub filtered : (V → Bool) → Option V → Option V
  filtered p none = none
  filtered p (some v) = if p v then some v else none

  pub lookup-select_none :
      (p : Text → V → Bool) (j : Text) (m : Dict V)
      → lookup j m ≡ none
      → lookup j (select_entries p m) ≡ none
  unfolding lookup select_entries
  lookup-select_none p j [] h = refl
  lookup-select_none p j ((i, w) ∷ m) h = ground (arith, lookup-select_none p j m)

  pub lookup-select_entries :
      (p : Text → V → Bool) (j : Text) (m : Dict V)
      → IsMap m
      → lookup j (select_entries p m) ≡ filtered (p j) (lookup j m)
  unfolding lookup select_entries
  lookup-select_entries p j [] h = refl
  lookup-select_entries p j ((i, w) ∷ m) h =
      ground (arith, equal_iff i j, lookup-select_entries p j m h.1, lookup-select_none p j m)

  pub select_entries-IsMap :
      (p : Text → V → Bool) (m : Dict V) → IsMap m → IsMap (select_entries p m)
  unfolding select_entries
  select_entries-IsMap p [] h = tt
  select_entries-IsMap p ((i, w) ∷ m) h = elim (Bool-cases (p i w)) [
    | inl e ↦ rw e (lookup-select_none p i m h.0, select_entries-IsMap p m h.1)
    | inr e ↦ rw e (select_entries-IsMap p m h.1)
  ]

  pub insert-IsMap : (k : Text) (v : V) (m : Dict V) → IsMap m → IsMap (insert k v m)
  unfolding insert
  insert-IsMap k v [] h = (unfold lookup in refl, tt)
  insert-IsMap k v ((i, w) ∷ m) h = elim (Bool-cases (equal i k)) [
    | inl e ↦ rw e (rw (← (equal_iff i k).0 e) h.0, h.1)
    | inr e ↦ rw e (
      ground (arith, lookup-insert k i v m, equal_iff i k, equal_iff k i),
      insert-IsMap k v m h.1,
    )
  ]

  pub remove-IsMap : (k : Text) (m : Dict V) → IsMap m → IsMap (remove k m)
  unfolding remove
  remove-IsMap k [] h = tt
  remove-IsMap k ((i, w) ∷ m) h = elim (Bool-cases (equal i k)) [
    | inl e ↦ rw e (remove-IsMap k m h.1)
    | inr e ↦ rw e (ground (arith, lookup-remove k i m), remove-IsMap k m h.1)
  ]

module _ {ℓ} {V : Type ℓ} where
  pub filtered-some :
      (p : V → Bool) (o : Option V) (v : V) → filtered p o ≡ some v → (o ≡ some v) × (p v ≡ true)
  filtered-some p none v h = cc
  filtered-some p (some w) v h = elim (Bool-cases (p w)) [
    | inl e ↦ let h' : some w ≡ some v = rw e at h in let w_eq : w ≡ v = cc h' in (h', rw w_eq at e)
    | inr e ↦ cc (e, h)
  ]

  -- What is found after an insertion is what was inserted, or was there before.
  pub lookup-insert_cases :
      (k j : Text) (v w : V) (m : Dict V)
      → lookup j (insert k v m) ≡ some w
      → ((k ≡ j) × (v ≡ w)) ⊎ (lookup j m ≡ some w)
  lookup-insert_cases k j v w m h = elim (Bool-cases (equal k j)) [
    | inl e ↦ inl ((equal_iff k j).0 e, (cc (e, lookup-insert k j v m)))
    | inr e ↦ inr (rw (lookup-insert, e) at h)
  ]

  pub lookup-remove-some :
      (k j : Text) (w : V) (m : Dict V)
      → lookup j (remove k m) ≡ some w
      → (k ≢ j) × (lookup j m ≡ some w)
  lookup-remove-some k j w m h = elim (Bool-cases (equal k j)) [
    | inl e ↦ cc (e, lookup-remove k j m)
    | inr e ↦ (λ p. cc (e, (equal_iff k j).1 p), rw (lookup-remove, e) at h)
  ]
