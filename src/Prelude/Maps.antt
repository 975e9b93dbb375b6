-- ===== src/Prelude/Maps.antt =====
-- A Go map with string keys, as the list of its entries: each key stands once.
-- `for k := range m` meets the keys in an order that Go leaves open: a function that depends on it takes the
-- order as an argument.
use Prim.Native.String.{String}
use mathlib.Core.Path.{◌≡◌, refl, sym}
use mathlib.Core.Bool.{Bool, true, ◌||◌, ◌&&◌, not}
use mathlib.Core.Option.{Option, none, some}
use mathlib.Core.List.{List, [], ◌∷◌, map}
use native.Mathlib.Omega.{arith}
use text.Mathlib.Text.{◌==◌}
use text.Mathlib.TextEquality.{eq_iff}
use akoflow_workflow_engine.Prelude.Tests.{if◌then◌else◌, is_some, eq_refl}
use Prim.Native.Nat.{suc, ◌≤◌}
use akoflow_workflow_engine.Prelude.Lists.{length, contains, distinct}

abbrev pub StringMap {ℓ} : Type ℓ → Type ℓ
StringMap V = List (String × V)

module _ {ℓ} {V : Type ℓ} where
  -- found, ok := m[key]
  unfoldable pub lookup : String → StringMap V → Option V
  lookup key [] = none
  lookup key ((first, found) ∷ entries) = if first == key then some found else lookup key entries

  -- m[key] = value
  unfoldable pub insert : String → V → StringMap V → StringMap V
  insert key value [] = (key, value) ∷ []
  insert key value ((first, found) ∷ entries) =
      let later = insert key value entries in
      if first == key then (key, value) ∷ entries else (first, found) ∷ later

  -- delete(m, k)
  unfoldable pub delete : String → StringMap V → StringMap V
  delete k [] = []
  delete k ((j, w) ∷ m) = let rest = delete k m in if j == k then rest else (j, w) ∷ rest

  -- _, ok := m[k]
  unfoldable pub has : String → StringMap V → Bool
  unfolding lookup
  has k m = is_some (lookup k m)

  unfoldable pub keys : StringMap V → List String
  keys [] = []
  keys ((k, v) ∷ m) = k ∷ keys m

  pub lookup-insert :
      (key asked : String) (value : V) (entries : StringMap V)
      → lookup asked (insert key value entries)
        ≡ (if key == asked then some value else lookup asked entries)
  unfolding lookup insert
  lookup-insert key asked value [] = refl
  lookup-insert key asked value ((first, found) ∷ entries) =
      let later = lookup-insert key asked value entries in
      ground (arith, later, eq_iff first asked, eq_iff first key, eq_iff key asked)

  pub lookup-delete :
      (k j : String) (m : StringMap V)
      → lookup j (delete k m) ≡ (if k == j then none else lookup j m)
  unfolding lookup delete
  lookup-delete k j [] = ground arith
  lookup-delete k j ((i, w) ∷ m) =
      ground (arith, eq_iff k j, eq_iff i k, eq_iff i j, lookup-delete k j m)

  pub contains-keys : (m : StringMap V) (k : String) → contains (keys m) k ≡ is_some (lookup k m)
  unfolding lookup keys
  contains-keys [] k = refl
  contains-keys ((j, w) ∷ m) k = ground (arith, contains-keys m k)

  pub has-contains : (m : StringMap V) (k : String) → has k m ≡ contains (keys m) k
  unfolding has
  has-contains m k = sym (contains-keys m k)

  pub has-insert :
      (key asked : String) (value : V) (m : StringMap V)
      → has asked (insert key value m) ≡ (key == asked || has asked m)
  unfolding has
  has-insert key asked value m = ground (arith, lookup-insert key asked value m)

  pub has-delete :
      (key asked : String) (m : StringMap V)
      → has asked (delete key m) ≡ (not (key == asked) && has asked m)
  unfolding has
  has-delete key asked m = ground (arith, lookup-delete key asked m)

  pub length-insert-le :
      (key : String) (value : V) (m : StringMap V) → length (insert key value m) ≤ suc (length m)
  unfolding insert
  length-insert-le key value [] = omega arith
  length-insert-le key value ((j, w) ∷ m) = ground (arith, length-insert-le key value m)

  pub length-delete-le : (key : String) (m : StringMap V) → length (delete key m) ≤ length m
  unfolding delete
  length-delete-le key [] = omega arith
  length-delete-le key ((j, w) ∷ m) = ground (arith, length-delete-le key m)

  -- A key that has just been written is deleted with what stood under it.
  pub length-delete-insert-le :
      (key : String) (value : V) (m : StringMap V)
      → length (delete key (insert key value m)) ≤ length m
  unfolding insert delete
  length-delete-insert-le key value [] = ground (arith, eq_refl key)
  length-delete-insert-le key value ((j, w) ∷ m) =
      ground (arith, length-delete-insert-le key value m, length-delete-le key m, eq_refl key)

  pub length-keys : (m : StringMap V) → length (keys m) ≡ length m
  unfolding keys
  length-keys [] = refl
  length-keys ((j, w) ∷ m) = omega (arith, length-keys m)

  pub contains-keys-insert :
      (k j : String) (v : V) (m : StringMap V)
      → contains (keys (insert k v m)) j ≡ (k == j || contains (keys m) j)
  contains-keys-insert k j v m =
      ground (arith, contains-keys (insert k v m) j, contains-keys m j, lookup-insert k j v m)

  pub distinct-keys-insert :
      (k : String) (v : V) (m : StringMap V)
      → distinct (keys m) ≡ true
      → distinct (keys (insert k v m)) ≡ true
  unfolding insert keys
  distinct-keys-insert k v [] h = refl
  distinct-keys-insert k v ((j, w) ∷ m) h =
      ground
        (arith, eq_iff j k, eq_iff k j, distinct-keys-insert k v m, contains-keys-insert k j v m)

  pub keys-insert_present :
      (k : String) (v : V) (m : StringMap V)
      → is_some (lookup k m) ≡ true
      → keys (insert k v m) ≡ keys m
  unfolding insert keys lookup
  keys-insert_present k v [] h = ground arith
  keys-insert_present k v ((j, w) ∷ m) h = ground (arith, eq_iff j k, keys-insert_present k v m)

-- `for _, v := range values { result[id(v)] = v }`: of two values with one id the later is kept.
module _ {ℓ} {A : Type ℓ} (id : A → String) where
  unfoldable pub index_by : List A → StringMap A → StringMap A
  index_by [] m = m
  index_by (v ∷ values) m = index_by values (insert (id v) v m)

  pub contains-index_by :
      (values : List A) (m : StringMap A) (k : String)
      → contains (keys (index_by values m)) k ≡ (contains (map id values) k || contains (keys m) k)
  unfolding index_by
  contains-index_by [] m k = refl
  contains-index_by (v ∷ values) m k =
      ground
        (arith, contains-index_by values (insert (id v) v m) k, contains-keys-insert (id v) k v m)

  pub distinct-index_by :
      (values : List A) (m : StringMap A)
      → distinct (keys m) ≡ true
      → distinct (keys (index_by values m)) ≡ true
  unfolding index_by
  distinct-index_by [] m h = h
  distinct-index_by (v ∷ values) m h =
      distinct-index_by values (insert (id v) v m) (distinct-keys-insert (id v) v m h)

pub ruleset map_laws = (lookup-insert, lookup-delete)
