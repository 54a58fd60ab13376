-- ===== src/Base/Dict.antt =====
-- A Go map with string keys, as an association list with at most one entry for each key.
use Prim.Native.Nat.{◌+◌, ◌≤◌}
use Prim.Native.String.{String}
use mathlib.Core.Path.{◌≡◌, refl}
use mathlib.Core.Logic.{◌≢◌}
use mathlib.Core.Bool.{true}
use mathlib.Core.Option.{Option, none, some}
use mathlib.Core.List.{List, [], ◌∷◌}
use native.Mathlib.Omega.{arith}
use text.Mathlib.Text.{◌==◌ as str_eq}
use text.Mathlib.TextEquality.{eq_iff, eq_iff as str_eq_iff}
use kairos_agent.Base.Texts.{member}
use kairos_agent.Base.Tests.{if◌then◌else◌, is_some, Option-cases}
use kairos_agent.Base.Lists.{length}

abbrev pub Dict {ℓ} : Type ℓ → Type ℓ
Dict V = List (String × V)

module _ {ℓ} {V : Type ℓ} where
  -- `m[key]`
  unfoldable pub lookup : String → Dict V → Option V
  lookup key [] = none
  lookup key (entry ∷ rest) =
      let later = lookup key rest in if str_eq entry.0 key then some (entry.1) else later

  -- `m[key] = value`
  unfoldable pub insert : String → V → Dict V → Dict V
  insert key value [] = (key, value) ∷ []
  insert key value (entry ∷ rest) =
      let later = insert key value rest in
      if str_eq entry.0 key then (key, value) ∷ rest else entry ∷ later

  -- `delete(m, key)`
  unfoldable pub erase : String → Dict V → Dict V
  erase key [] = []
  erase key (entry ∷ rest) =
      let later = erase key rest in if str_eq entry.0 key then rest else entry ∷ later

  -- What is found after a write, at the key that was written and at any other.
  pub lookup-insert :
      (key other : String) (value : V) (m : Dict V)
      → lookup other (insert key value m)
        ≡ (if str_eq key other then some value else lookup other m)
  unfolding insert lookup
  lookup-insert key other value [] = refl
  lookup-insert key other value (entry ∷ rest) = ground (
    arith,
    eq_iff entry.0 key,
    eq_iff entry.0 other,
    eq_iff key other,
    lookup-insert key other value rest,
  )

  pub lookup-insert_ne :
      (k j : String) → k ≢ j → (v : V) (m : Dict V) → lookup j (insert k v m) ≡ lookup j m
  lookup-insert_ne k j ne v m = ground (arith, eq_iff k j, lookup-insert k j v m)

  pub lookup-erase_ne : (k j : String) (m : Dict V) → k ≢ j → lookup j (erase k m) ≡ lookup j m
  unfolding lookup erase
  lookup-erase_ne k j [] h = refl
  lookup-erase_ne k j ((i, w) ∷ m) h =
      ground (arith, eq_iff i k, eq_iff i j, lookup-erase_ne k j m h)

  -- No key has two entries.
  abbrev pub IsMap : Dict V → Type ℓ
  IsMap [] = Unit
  IsMap ((k, _) ∷ m) = (lookup k m ≡ none) × IsMap m

  pub insert-IsMap : (k : String) (v : V) (m : Dict V) → IsMap m → IsMap (insert k v m)
  unfolding lookup insert
  insert-IsMap k v [] h = (refl, tt)
  insert-IsMap k v ((i, w) ∷ m) h =
      ground (arith, eq_iff i k, eq_iff k i, insert-IsMap k v m h.1, lookup-insert k i v m)

  pub erase-IsMap : (k : String) (m : Dict V) → IsMap m → IsMap (erase k m)
  unfolding lookup erase
  erase-IsMap k [] h = tt
  erase-IsMap k ((i, w) ∷ m) h =
      ground (arith, eq_iff i k, eq_iff k i, erase-IsMap k m h.1, lookup-erase_ne k i m)

  pub lookup-erase_self : (k : String) (m : Dict V) → IsMap m → lookup k (erase k m) ≡ none
  unfolding lookup erase
  lookup-erase_self k [] h = refl
  lookup-erase_self k ((i, w) ∷ m) h = ground (arith, eq_iff i k, lookup-erase_self k m h.1)

  pub length-insert_new :
      (k : String) (v : V) (m : Dict V) → lookup k m ≡ none → length (insert k v m) ≡ length m + 1
  unfolding lookup insert
  length-insert_new k v [] h = omega arith
  length-insert_new k v ((i, w) ∷ m) h = ground (arith, length-insert_new k v m)

  pub length-insert : (k : String) (v : V) (m : Dict V) → length (insert k v m) ≤ length m + 1
  unfolding insert
  length-insert k v [] = omega arith
  length-insert k v ((i, w) ∷ m) = ground (arith, length-insert k v m)

  pub length-erase : (k : String) (m : Dict V) → length (erase k m) ≤ length m
  unfolding erase
  length-erase k [] = omega arith
  length-erase k ((i, w) ∷ m) = ground (arith, length-erase k m)

  pub length-erase_some :
      (k : String) (m : Dict V) → is_some (lookup k m) ≡ true → length (erase k m) + 1 ≡ length m
  unfolding lookup erase
  length-erase_some k [] h = ground arith
  length-erase_some k ((i, w) ∷ m) h = ground (arith, length-erase_some k m)

  pub erase-of_none : (k : String) (m : Dict V) → lookup k m ≡ none → erase k m ≡ m
  unfolding lookup erase
  erase-of_none k [] h = refl
  erase-of_none k ((i, w) ∷ m) h = ground (arith, erase-of_none k m)

  -- A key that was added and deleted again.
  pub lookup-erase-insert :
      (k j : String) (v : V) (m : Dict V)
      → IsMap m
      → lookup k m ≡ none
      → lookup j (erase k (insert k v m)) ≡ lookup j m
  lookup-erase-insert k j v m h absent = ground (
    arith,
    eq_iff k j,
    lookup-erase_self k (insert k v m) (insert-IsMap k v m h),
    lookup-erase_ne k j (insert k v m),
    lookup-insert k j v m,
  )

  pub lookup-insert_self : (k : String) (v : V) (m : Dict V) → lookup k (insert k v m) ≡ some v
  lookup-insert_self k v m = ground (arith, eq_iff k k, lookup-insert k k v m)

  unfoldable pub keys_of : Dict V → List String
  keys_of [] = []
  keys_of (entry ∷ rest) = entry.0 ∷ keys_of rest

  pub member-keys_of : (k : String) (m : Dict V) → member k (keys_of m) ≡ is_some (lookup k m)
  unfolding keys_of lookup
  member-keys_of k [] = refl
  member-keys_of k ((i, w) ∷ m) = ground (arith, member-keys_of k m)

  pub lookup-erase-none :
      (k j : String) (m : Dict V) → IsMap m → lookup j m ≡ none → lookup j (erase k m) ≡ none
  lookup-erase-none k j m h absent =
      ground (arith, str_eq_iff k j, lookup-erase_self k m h, lookup-erase_ne k j m)

  pub empty_of_none : (m : Dict V) → ((k : String) → lookup k m ≡ none) → m ≡ []
  unfolding lookup
  empty_of_none [] h = refl
  empty_of_none ((i, w) ∷ m) h = ground (arith, h i, str_eq_iff i i)

  -- The keys that are listed, deleted one after another.
  unfoldable pub erase_all : List String → Dict V → Dict V
  erase_all [] m = m
  erase_all (k ∷ rest) m = erase_all rest (erase k m)

  pub lookup-erase_all-none :
      (l : List String) (j : String) (m : Dict V)
      → IsMap m
      → lookup j m ≡ none
      → lookup j (erase_all l m) ≡ none
  unfolding erase_all
  lookup-erase_all-none [] j m h absent = absent
  lookup-erase_all-none (k ∷ l) j m h absent =
      lookup-erase_all-none l j (erase k m) (erase-IsMap k m h) (lookup-erase-none k j m h absent)

  pub lookup-erase_all :
      (l : List String) (j : String) (m : Dict V)
      → IsMap m
      → member j l ≡ true
      → lookup j (erase_all l m) ≡ none
  unfolding erase_all
  lookup-erase_all [] j m h listed = ground arith
  lookup-erase_all (k ∷ l) j m h listed = ground (
    arith,
    str_eq_iff k j,
    lookup-erase_self k m h,
    lookup-erase_all-none l j (erase k m) (erase-IsMap k m h),
    lookup-erase_all l j (erase k m) (erase-IsMap k m h),
  )

  -- All the keys of a map, listed in any order.
  pub erase_all-keys_of :
      (visit : List String → List String)
      → ((l : List String) (k : String) → member k l ≡ true → member k (visit l) ≡ true)
      → (m : Dict V) → IsMap m
      → erase_all (visit (keys_of m)) m ≡ []
  erase_all-keys_of visit visits m h = empty_of_none (erase_all (visit (keys_of m)) m) (λ k.
      ground (
        arith,
        Option-cases (lookup k m),
        member-keys_of k m,
        visits (keys_of m) k,
        lookup-erase_all (visit (keys_of m)) k m h,
        lookup-erase_all-none (visit (keys_of m)) k m h,
      ))
