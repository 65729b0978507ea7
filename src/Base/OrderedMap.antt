-- ===== src/Base/OrderedMap.antt =====
-- JavaScript's `Map` with text keys: entries in the order of first insertion. `set` on a key that is
-- there keeps its place.
use Prim.Native.String.{String}
use mathlib.Core.Path.{◌≡◌, refl, sym, ap}
use mathlib.Core.Bool.{Bool, false}
use mathlib.Core.Option.{Option, none, some}
use mathlib.Core.List.{List, [], ◌∷◌, ◌++◌, Memᴰ}
use native.Mathlib.Omega.{arith}
use text.Mathlib.Text.{◌==◌}
use mathlib.Core.Logic.{◌≢◌, ◌⊎◌, inl, inr}
use text.Mathlib.TextEquality.{eq_iff}
use text.Mathlib.TextPositions.{eq_refl}
use account_abstraction.Base.Tests.{if◌then◌else◌, is_some, Bool-cases}

abbrev pub IsNone {ℓ} : {A : Type ℓ} → Option A → Type 0
IsNone none = Unit
IsNone (some a) = ⊥

module _ {ℓ} {V : Type ℓ} where
  unfoldable pub get : String → List (String × V) → Option V
  get k [] = none
  get k ((j, v) ∷ m) = if j == k then some v else get k m

  abbrev pub has : String → List (String × V) → Bool
  has k m = is_some (get k m)

  unfoldable pub set : String → V → List (String × V) → List (String × V)
  set k v [] = (k, v) ∷ []
  set k v ((j, w) ∷ m) = if j == k then (k, v) ∷ m else (j, w) ∷ set k v m

  unfoldable pub delete : String → List (String × V) → List (String × V)
  delete k [] = []
  delete k ((j, v) ∷ m) = let rest = delete k m in if j == k then rest else (j, v) ∷ rest

  abbrev pub values : List (String × V) → List V
  values [] = []
  values ((k, v) ∷ m) = v ∷ values m

  pub get-set :
      (k j : String) (v : V) (m : List (String × V))
      → get j (set k v m) ≡ (if k == j then some v else get j m)
  unfolding get set
  get-set k j v [] = refl
  get-set k j v ((i, w) ∷ m) = ground (arith, eq_iff k j, eq_iff i k, eq_iff i j, get-set k j v m)

  pub get-delete :
      (k j : String) (m : List (String × V))
      → get j (delete k m) ≡ (if k == j then none else get j m)
  unfolding get delete
  get-delete k j [] = ground arith
  get-delete k j ((i, w) ∷ m) = ground (arith, get-delete k j m, eq_iff i k, eq_iff i j, eq_iff k j)

  pub get-delete-some :
      (j k : String) (m : List (String × V)) (v : V)
      → get k (delete j m) ≡ some v
      → (j ≢ k) × (get k m ≡ some v)
  get-delete-some j k m v h =
      (λ e. ground (arith, get-delete j k m, eq_iff j k, e), ground (arith, get-delete j k m))

  pub get-delete_self : (k : String) (m : List (String × V)) → get k (delete k m) ≡ none
  get-delete_self k m = rw (get-delete k k m, eq_refl k)

  pub get-delete_ne : (j k : String) (m : List (String × V)) → j ≢ k → get k (delete j m) ≡ get k m
  get-delete_ne j k m h = ground (arith, get-delete j k m, eq_iff j k)

  pub get-set_self : (k : String) (v : V) (m : List (String × V)) → get k (set k v m) ≡ some v
  get-set_self k v m = rw (get-set k k v m, eq_refl k)

  pub get-set_ne :
      (k j : String) (v : V) (m : List (String × V)) → k ≢ j → get j (set k v m) ≡ get j m
  get-set_ne k j v m h = ground (arith, get-set k j v m, eq_iff k j)

  pub get-set_cases :
      (j k : String) (v : V) (m : List (String × V)) (w : V)
      → get k (set j v m) ≡ some w
      → ((j ≡ k) × (v ≡ w)) ⊎ ((j ≢ k) × (get k m ≡ some w))
  get-set_cases j k v m w h = elim (Bool-cases (j == k)) [
    | inl same ↦ inl ((eq_iff j k).0 same, ground (arith, get-set j k v m))
    | inr other ↦ inr (λ e. ground (arith, eq_iff j k, e), ground (arith, get-set j k v m))
  ]

  -- A new key is written at the end, so `values` lists the values oldest first.
  pub values-set_new :
      (k : String) (v : V) (m : List (String × V))
      → get k m ≡ none
      → values (set k v m) ≡ values m ++ v ∷ []
  unfolding get set
  values-set_new k v [] h = refl
  values-set_new k v ((i, w) ∷ m) h = ground (arith, values-set_new k v m)

  -- No key stands twice; so it is of every map that `set` and `delete` build from the empty one.
  abbrev pub DistinctKeys : List (String × V) → Type 0
  DistinctKeys [] = Unit
  DistinctKeys ((k, v) ∷ m) = IsNone (get k m) × DistinctKeys m

  get-set-IsNone :
      (j k : String) (v : V) (m : List (String × V))
      → (j == k) ≡ false
      → IsNone (get j m)
      → IsNone (get j (set k v m))
  get-set-IsNone j k v m ne h = ground (arith, get-set k j v m, eq_iff j k, eq_iff k j)

  pub set-DistinctKeys :
      (k : String) (v : V) (m : List (String × V)) → DistinctKeys m → DistinctKeys (set k v m)
  unfolding set get
  set-DistinctKeys k v [] d = (tt, tt)
  set-DistinctKeys k v ((j, w) ∷ m) (n, d) = elim (Bool-cases (j == k)) [
    | inl same ↦ rw (same, set) (ground (arith, eq_iff j k), d)
    | inr other ↦ rw (other, set) (get-set-IsNone j k v m other n, set-DistinctKeys k v m d)
  ]

  pub delete-DistinctKeys :
      (k : String) (m : List (String × V)) → DistinctKeys m → DistinctKeys (delete k m)
  unfolding delete
  delete-DistinctKeys k [] d = tt
  delete-DistinctKeys k ((j, w) ∷ m) (n, d) =
      ground (arith, delete-DistinctKeys k m d, get-delete k j m)

  -- Every value stands under some key.
  pub mem-values-get :
      (m : List (String × V)) (v : V)
      → DistinctKeys m
      → Memᴰ v (values m)
      → (k : String) × (get k m ≡ some v)
  unfolding get
  mem-values-get [] v d h = elim h [ ]
  mem-values-get ((j, w) ∷ m) v d (Memᴰ.head e) = (j, rw (eq_refl j) (ap some (sym e)))
  mem-values-get ((j, w) ∷ m) v (n, d) (Memᴰ.tail h) =
      let (k, at) = mem-values-get m v d h in (k, ground (arith, eq_iff j k))

  pub delete_absent : (k : String) (m : List (String × V)) → IsNone (get k m) → delete k m ≡ m
  unfolding get delete
  delete_absent k [] h = refl
  delete_absent k ((j, w) ∷ m) h = ground (arith, delete_absent k m)

  -- Deleting the oldest key leaves the rest.
  pub delete_first :
      (k : String) (v : V) (m : List (String × V))
      → DistinctKeys ((k, v) ∷ m)
      → delete k ((k, v) ∷ m) ≡ m
  unfolding delete
  delete_first k v m (n, d) = rw (eq_refl k, delete) (delete_absent k m n)
