-- ===== src/Base/Lists.antt =====
-- Lists measured and indexed by native numbers, Boolean quantifiers, and `All`.
use Prim.Native.Nat.{ℕ, zero, suc, ◌+◌, ◌≤◌, ◌<◌}
use mathlib.Core.Path.{◌≡◌, refl, ap}
use mathlib.Core.Logic.{◌≢◌, ◌⊎◌, inl, inr}
use mathlib.Core.Bool.{Bool, true, false, ◌&&◌, ◌||◌}
use mathlib.Core.List.{List, [], ◌∷◌, ◌++◌, Memᴰ}
use mathlib.Core.Option.{Option, none, some}
use native.Mathlib.Omega.{arith}
use Prim.Native.String.{String}
use text.Mathlib.Text.{◌==◌}
use account_abstraction.Base.Tests.{if◌then◌else◌}

module _ {ℓ} {A : Type ℓ} where
  abbrev pub length : List A → ℕ
  length [] = 0
  length (x ∷ xs) = suc (length xs)

  abbrev pub get_elem? : List A → ℕ → Option A
  get_elem? [] i = none
  get_elem? (x ∷ xs) zero = some x
  get_elem? (x ∷ xs) (suc i) = get_elem? xs i

  abbrev pub take : ℕ → List A → List A
  take zero xs = []
  take (suc n) [] = []
  take (suc n) (x ∷ xs) = x ∷ take n xs

  abbrev pub drop : ℕ → List A → List A
  drop zero xs = xs
  drop (suc n) [] = []
  drop (suc n) (x ∷ xs) = drop n xs

  abbrev pub any : (A → Bool) → List A → Bool
  any p [] = false
  any p (x ∷ xs) = p x || any p xs

  abbrev pub all : (A → Bool) → List A → Bool
  all p [] = true
  all p (x ∷ xs) = p x && all p xs

  -- Replaces the element at an index; an index out of range changes nothing.
  abbrev pub modify : ℕ → (A → A) → List A → List A
  modify i f [] = []
  modify zero f (x ∷ xs) = f x ∷ xs
  modify (suc i) f (x ∷ xs) = x ∷ modify i f xs

  pub length-append : (xs ys : List A) → length (xs ++ ys) ≡ length xs + length ys
  length-append [] ys = omega arith
  length-append (x ∷ xs) ys = omega (arith, length-append xs ys)

  pub length-take-le : (n : ℕ) (xs : List A) → length (take n xs) ≤ n
  length-take-le zero xs = omega arith
  length-take-le (suc n) [] = omega arith
  length-take-le (suc n) (x ∷ xs) = omega (arith, length-take-le n xs)

  pub length-modify : (i : ℕ) (f : A → A) (xs : List A) → length (modify i f xs) ≡ length xs
  length-modify i f [] = refl
  length-modify zero f (x ∷ xs) = refl
  length-modify (suc i) f (x ∷ xs) = ap suc (length-modify i f xs)

module _ {ℓ} {A : Type ℓ} where
  pub get_elem?-modify_self :
      (i : ℕ) (f : A → A) (xs : List A) (x : A)
      → get_elem? xs i ≡ some x
      → get_elem? (modify i f xs) i ≡ some (f x)
  get_elem?-modify_self i f [] x h = cc
  get_elem?-modify_self zero f (y ∷ xs) x h = ground arith
  get_elem?-modify_self (suc i) f (y ∷ xs) x h = get_elem?-modify_self i f xs x h

  pub get_elem?-modify_ne :
      (i j : ℕ) (f : A → A) (xs : List A) → i ≢ j → get_elem? (modify i f xs) j ≡ get_elem? xs j
  get_elem?-modify_ne i j f [] h = refl
  get_elem?-modify_ne zero zero f (x ∷ xs) h = absurd (h refl)
  get_elem?-modify_ne zero (suc j) f (x ∷ xs) h = refl
  get_elem?-modify_ne (suc i) zero f (x ∷ xs) h = refl
  get_elem?-modify_ne (suc i) (suc j) f (x ∷ xs) h =
      get_elem?-modify_ne i j f xs (λ e. h (ap suc e))

  pub get_elem?-modify_back :
      (i j : ℕ) (f : A → A) (xs : List A) (y : A)
      → get_elem? (modify i f xs) j ≡ some y
      → (x : A) × (get_elem? xs j ≡ some x) × ((y ≡ x) ⊎ (y ≡ f x))
  get_elem?-modify_back i j f [] y h = cc
  get_elem?-modify_back zero zero f (x ∷ xs) y h = (x, refl, inr (ground arith))
  get_elem?-modify_back zero (suc j) f (x ∷ xs) y h = (y, h, inl refl)
  get_elem?-modify_back (suc i) zero f (x ∷ xs) y h = (x, refl, inl (ground arith))
  get_elem?-modify_back (suc i) (suc j) f (x ∷ xs) y h = get_elem?-modify_back i j f xs y h

  pub get_elem?-append_left :
      (xs ys : List A) (i : ℕ) (x : A) → get_elem? xs i ≡ some x → get_elem? (xs ++ ys) i ≡ some x
  get_elem?-append_left [] ys i x h = cc
  get_elem?-append_left (y ∷ xs) ys zero x h = h
  get_elem?-append_left (y ∷ xs) ys (suc i) x h = get_elem?-append_left xs ys i x h

  -- An element that is pushed stands at the old length.
  pub get_elem?-append_length :
      (xs : List A) (x : A) → get_elem? (xs ++ x ∷ []) (length xs) ≡ some x
  get_elem?-append_length [] x = refl
  get_elem?-append_length (y ∷ xs) x = get_elem?-append_length xs x

  pub get_elem?-lt : (xs : List A) (i : ℕ) (x : A) → get_elem? xs i ≡ some x → i < length xs
  get_elem?-lt [] i x h = cc
  get_elem?-lt (y ∷ xs) zero x h = omega arith
  get_elem?-lt (y ∷ xs) (suc i) x h = omega (arith, get_elem?-lt xs i x h)

not-mem-cons {ℓ} :
    {A : Type ℓ} {x y : A} {xs : List A} → x ≢ y → ¬ (Memᴰ x xs) → ¬ (Memᴰ x (y ∷ xs))
not-mem-cons ne nm (Memᴰ.head e) = ne e
not-mem-cons ne nm (Memᴰ.tail m) = nm m

module _ {ℓ κ} {A : Type ℓ} where
  abbrev pub All : (A → Type κ) → List A → Type κ
  All P [] = Unit
  All P (x ∷ xs) = P x × All P xs

module _ {ℓ} {A : Type ℓ} where
  pub mem-take : (n : ℕ) (xs : List A) {x : A} → Memᴰ x (take n xs) → Memᴰ x xs
  mem-take zero xs m = elim m [ ]
  mem-take (suc n) [] m = elim m [ ]
  mem-take (suc n) (y ∷ xs) (Memᴰ.head e) = Memᴰ.head e
  mem-take (suc n) (y ∷ xs) (Memᴰ.tail m) = Memᴰ.tail (mem-take n xs m)

  pub mem-cases : Discrete A → (x : A) (xs : List A) → Memᴰ x xs ⊎ ¬ (Memᴰ x xs)
  mem-cases dec x [] = inr (λ m. elim m [ ])
  mem-cases dec x (y ∷ xs) = elim (dec x y) [
    | yes e ↦ inl (Memᴰ.head e)
    | no ne ↦ elim (mem-cases dec x xs) [
      | inl m ↦ inl (Memᴰ.tail m)
      | inr nm ↦ inr (not-mem-cons ne nm)
    ]
  ]

module _ {ℓ κ} {A : Type ℓ} (P : A → Type κ) where
  pub All-intro : (xs : List A) → ((x : A) → Memᴰ x xs → P x) → All P xs
  All-intro [] each = tt
  All-intro (x ∷ xs) each = (each x (Memᴰ.head refl), All-intro xs (λ y m. each y (Memᴰ.tail m)))

  pub All-append : (xs ys : List A) → All P xs → All P ys → All P (xs ++ ys)
  All-append [] ys left right = right
  All-append (x ∷ xs) ys (here, left) right = (here, All-append xs ys left right)

-- The texts of a list in the order of their first occurrence: what a `Set` keeps of them.
abbrev remove_text : String → List String → List String
remove_text s [] = []
remove_text s (t ∷ ts) = let rest = remove_text s ts in if t == s then rest else t ∷ rest

abbrev pub distinct : List String → List String
distinct [] = []
distinct (s ∷ ss) = s ∷ remove_text s (distinct ss)
