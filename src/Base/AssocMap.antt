-- ===== src/Base/AssocMap.antt =====
-- A `HashMap` as an association list: a key that is new goes to the end, one that is there keeps its
-- place.
use Prim.Native.Nat.{suc, ◌≤◌}
use mathlib.Core.Path.{◌≡◌, refl}
use mathlib.Core.Logic.{◌≢◌}
use mathlib.Core.Option.{Option, none, some}
use mathlib.Core.List.{List, [], ◌∷◌}
use native.Mathlib.Omega.{arith}
use scg.Base.Lists.{length}

module _ {K V : Type 0} (eq : Discrete K) where
  -- `map.get(key)`
  unfoldable pub get : K → List (K × V) → Option V
  get k [] = none
  get k ((k', v) ∷ m) = let rest = get k m in elim (eq k k') [ yes _ ↦ some v | no _ ↦ rest ]

  -- `map.insert(key, value)`
  unfoldable pub insert : K → V → List (K × V) → List (K × V)
  insert k v [] = (k, v) ∷ []
  insert k v ((k', v') ∷ m) =
      let rest = insert k v m in elim (eq k k') [ yes _ ↦ (k, v) ∷ m | no _ ↦ (k', v') ∷ rest ]

  -- `map.remove(key)`
  unfoldable pub remove : K → List (K × V) → List (K × V)
  remove k [] = []
  remove k ((k', v) ∷ m) =
      let rest = remove k m in elim (eq k k') [ yes _ ↦ rest | no _ ↦ (k', v) ∷ rest ]

  pub get-insert_same : (k : K) (v : V) (m : List (K × V)) → get k (insert k v m) ≡ some v
  unfolding get insert
  get-insert_same k v [] = ground arith
  get-insert_same k v ((k', v') ∷ m) = ground (arith, get-insert_same k v m)

  pub get-insert_other :
      (k j : K) (v : V) (m : List (K × V)) → j ≢ k → get j (insert k v m) ≡ get j m
  unfolding get insert
  get-insert_other k j v [] ne = ground arith
  get-insert_other k j v ((k', v') ∷ m) ne = ground (arith, get-insert_other k j v m ne)

  pub get-remove_same : (k : K) (m : List (K × V)) → get k (remove k m) ≡ none
  unfolding get remove
  get-remove_same k [] = refl
  get-remove_same k ((k', v') ∷ m) = ground (arith, get-remove_same k m)

  pub get-remove_other : (k j : K) (m : List (K × V)) → j ≢ k → get j (remove k m) ≡ get j m
  unfolding get remove
  get-remove_other k j [] ne = refl
  get-remove_other k j ((k', v') ∷ m) ne = ground (arith, get-remove_other k j m ne)

  pub length-remove_le : (k : K) (m : List (K × V)) → length (remove k m) ≤ length m
  unfolding remove
  length-remove_le k [] = omega arith
  length-remove_le k ((k', v') ∷ m) = ground (arith, length-remove_le k m)

  -- A new key makes the map one longer, a key that is there leaves its length.
  pub length-insert_new :
      (k : K) (v : V) (m : List (K × V)) → get k m ≡ none → length (insert k v m) ≡ suc (length m)
  unfolding get insert
  length-insert_new k v [] h = refl
  length-insert_new k v ((k', v') ∷ m) h = ground (arith, length-insert_new k v m)

  pub length-insert_present :
      (k : K) (v : V) (m : List (K × V)) {w : V}
      → get k m ≡ some w
      → length (insert k v m) ≡ length m
  unfolding get insert
  length-insert_present k v [] h = ground arith
  length-insert_present k v ((k', v') ∷ m) {w} h =
      ground (arith, length-insert_present k v m {w = w})

  -- A map without an entry has no key.
  pub empty_of_none : (m : List (K × V)) → ((k : K) → get k m ≡ none) → m ≡ []
  unfolding get
  empty_of_none [] h = refl
  empty_of_none ((k, v) ∷ m) h = absurd (ground (arith, h k))

  pub length-insert_le : (k : K) (v : V) (m : List (K × V)) → length (insert k v m) ≤ suc (length m)
  unfolding insert
  length-insert_le k v [] = omega arith
  length-insert_le k v ((k', v') ∷ m) = ground (arith, length-insert_le k v m)
