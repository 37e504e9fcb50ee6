-- ===== src/Prelude/Lists.antt =====
-- Lists measured and searched by Boolean tests, as the array methods of the source do.
use Prim.Native.Nat.{ℕ, zero, suc, ◌+◌, ◌≤◌}
use mathlib.Core.Path.{◌≡◌, refl, sym, subst}
use mathlib.Core.Bool.{Bool, true, false, ◌||◌}
use mathlib.Core.Option.{Option, none, some}
use mathlib.Core.List.{List, [], ◌∷◌, ◌++◌, Memᴰ}
use mathlib.Core.Logic.{inl, inr}
use native.Mathlib.Omega.{arith}
use profit_decision_engine.Prelude.Tests.{if◌then◌else◌, Bool-cases}

module _ {ℓ} {A : Type ℓ} where
  abbrev pub length : List A → ℕ
  length [] = 0
  length (x ∷ xs) = suc (length xs)

  -- `Array.prototype.filter`
  abbrev pub filter : (A → Bool) → List A → List A
  filter p [] = []
  filter p (x ∷ xs) = let rest = filter p xs in if p x then x ∷ rest else rest

  -- `Array.prototype.find`
  abbrev pub find : (A → Bool) → List A → Option A
  find p [] = none
  find p (x ∷ xs) = let rest = find p xs in if p x then some x else rest

  -- `Array.prototype.some`
  abbrev pub any : (A → Bool) → List A → Bool
  any p [] = false
  any p (x ∷ xs) = p x || any p xs

  -- `Array.prototype.slice(0, n)`
  abbrev pub take : ℕ → List A → List A
  take zero xs = []
  take (suc n) [] = []
  take (suc n) (x ∷ xs) = x ∷ take n xs

  abbrev pub get_elem? : List A → ℕ → Option A
  get_elem? [] i = none
  get_elem? (x ∷ xs) zero = some x
  get_elem? (x ∷ xs) (suc i) = get_elem? xs i

  pub Memᴰ-get_elem? : (xs : List A) (i : ℕ) (x : A) → get_elem? xs i ≡ some x → Memᴰ x xs
  Memᴰ-get_elem? [] i x e = cc
  Memᴰ-get_elem? (y ∷ xs) zero x e = Memᴰ.head (cc e)
  Memᴰ-get_elem? (y ∷ xs) (suc i) x e = Memᴰ.tail (Memᴰ-get_elem? xs i x e)

  pub length-append : (xs ys : List A) → length (xs ++ ys) ≡ length xs + length ys
  length-append [] ys = omega arith
  length-append (x ∷ xs) ys = omega (arith, length-append xs ys)

  pub length-filter_le : (p : A → Bool) (xs : List A) → length (filter p xs) ≤ length xs
  length-filter_le p [] = omega arith
  length-filter_le p (x ∷ xs) = ground (arith, length-filter_le p xs)

  pub filter-append :
      (p : A → Bool) (xs ys : List A) → filter p (xs ++ ys) ≡ filter p xs ++ filter p ys
  filter-append p [] ys = refl
  filter-append p (x ∷ xs) ys = ground (arith, filter-append p xs ys)

-- Every member of the list has the property.
module _ {ℓ κ} {A : Type ℓ} (P : A → Type κ) where
  abbrev pub All : List A → Type κ
  All [] = Unit
  All (x ∷ xs) = P x × All xs

  pub All-append : (xs ys : List A) → All xs → All ys → All (xs ++ ys)
  All-append [] ys h k = k
  All-append (x ∷ xs) ys h k = (h.0, All-append xs ys h.1 k)

-- Membership in a filtered list, and what holds of it.
module _ {ℓ} {A : Type ℓ} (p : A → Bool) where
  Memᴰ-filter_step :
      (a x : A) (xs : List A) (b : Bool)
      → p x ≡ b
      → (Memᴰ a (filter p xs) → Memᴰ a xs × (p a ≡ true))
      → Memᴰ a (if b then x ∷ filter p xs else filter p xs)
      → Memᴰ a (x ∷ xs) × (p a ≡ true)
  Memᴰ-filter_step a x xs true e ih (Memᴰ.head s) = (Memᴰ.head s, rw s e)
  Memᴰ-filter_step a x xs true e ih (Memᴰ.tail n) = (Memᴰ.tail (ih n).0, (ih n).1)
  Memᴰ-filter_step a x xs false e ih n = (Memᴰ.tail (ih n).0, (ih n).1)

  pub Memᴰ-filter : (a : A) (xs : List A) → Memᴰ a (filter p xs) → Memᴰ a xs × (p a ≡ true)
  Memᴰ-filter a [] m = elim m [ ]
  Memᴰ-filter a (x ∷ xs) m = Memᴰ-filter_step a x xs (p x) refl (Memᴰ-filter a xs) m

  pub mem-filter_of : (a : A) (xs : List A) → Memᴰ a xs → p a ≡ true → Memᴰ a (filter p xs)
  mem-filter_of a [] m h = elim m [ ]
  mem-filter_of a (x ∷ xs) (Memᴰ.head s) h = let e : p x ≡ true = rw (← s) h in rw e (Memᴰ.head s)
  mem-filter_of a (x ∷ xs) (Memᴰ.tail n) h = elim (Bool-cases (p x)) [
    | inl e ↦ rw e (Memᴰ.tail (mem-filter_of a xs n h))
    | inr e ↦ rw e (mem-filter_of a xs n h)
  ]

pub All-mem {ℓ κ} : {A : Type ℓ} (P : A → Type κ) {a : A} (xs : List A) → All P xs → Memᴰ a xs → P a
All-mem P [] h m = elim m [ ]
All-mem P (x ∷ xs) h (Memᴰ.head s) = subst P (sym s) h.0
All-mem P (x ∷ xs) h (Memᴰ.tail n) = All-mem P xs h.1 n
