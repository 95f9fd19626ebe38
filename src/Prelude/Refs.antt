-- ===== src/Prelude/Refs.antt =====
-- References to the objects of a Python list. The lists of the state hold distinct objects, so a
-- reference is a position: `find_ref` is a `for` loop that returns the first match, and
-- `update_at` an assignment to a field of the object found.
use Prim.Native.Nat.{ℕ, zero, suc, ◌+◌}
use mathlib.Core.Path.{◌≡◌, refl, ap}
use mathlib.Core.Logic.{◌≢◌}
use mathlib.Core.List.{List, [], ◌∷◌, ◌++◌, map}
use mathlib.Core.Option.{Option, none, some}
use mathlib.Core.Bool.{Bool, true, false}
use native.Mathlib.Omega.{arith}
use euicc_simulator.Prelude.Tests.{if◌then◌else◌}
use euicc_simulator.Prelude.Lists.{length, get_elem?}

module _ {ℓ} {A : Type ℓ} where
  abbrev later : Option (ℕ × A) → Option (ℕ × A)
  later none = none
  later (some (i, a)) = some (suc i, a)

  unfoldable pub find_ref : (A → Bool) → List A → Option (ℕ × A)
  find_ref p [] = none
  find_ref p (x ∷ xs) = if p x then some (zero, x) else later (find_ref p xs)

  unfoldable pub update_at : ℕ → (A → A) → List A → List A
  update_at i f [] = []
  update_at zero f (x ∷ xs) = f x ∷ xs
  update_at (suc i) f (x ∷ xs) = x ∷ update_at i f xs

  -- `xs.pop(i)`.
  unfoldable pub pop_at : ℕ → List A → List A
  pop_at i [] = []
  pop_at zero (x ∷ xs) = xs
  pop_at (suc i) (x ∷ xs) = x ∷ pop_at i xs

  -- `xs.remove(v)`: the first element that equals `v`.
  unfoldable pub remove_first : (A → Bool) → List A → List A
  remove_first p [] = []
  remove_first p (x ∷ xs) = if p x then xs else x ∷ remove_first p xs

  -- The reference leads to the object, which has the property.
  pub find_ref_lem :
      (p : A → Bool) (xs : List A) (i : ℕ) (a : A)
      → find_ref p xs ≡ some (i, a)
      → (get_elem? xs i ≡ some a) × (p a ≡ true)
  unfolding find_ref
  find_ref_lem p [] i a h = absurd (cc)
  find_ref_lem p (x ∷ xs) zero a h = ground arith
  find_ref_lem p (x ∷ xs) (suc i) a h = ground (arith, find_ref_lem p xs i a)

  pub get_elem?-update_at_self :
      (f : A → A) (xs : List A) (i : ℕ) (a : A)
      → get_elem? xs i ≡ some a
      → get_elem? (update_at i f xs) i ≡ some (f a)
  unfolding update_at
  get_elem?-update_at_self f [] i a h = absurd (cc)
  get_elem?-update_at_self f (x ∷ xs) zero a h = ground arith
  get_elem?-update_at_self f (x ∷ xs) (suc i) a h = get_elem?-update_at_self f xs i a h

  pub get_elem?-update_at_ne :
      (f : A → A) (xs : List A) (i j : ℕ) → i ≢ j → get_elem? (update_at i f xs) j ≡ get_elem? xs j
  unfolding update_at
  get_elem?-update_at_ne f [] i j h = refl
  get_elem?-update_at_ne f (x ∷ xs) zero zero h = absurd (h refl)
  get_elem?-update_at_ne f (x ∷ xs) zero (suc j) h = refl
  get_elem?-update_at_ne f (x ∷ xs) (suc i) zero h = refl
  get_elem?-update_at_ne f (x ∷ xs) (suc i) (suc j) h =
      get_elem?-update_at_ne f xs i j (λ e. h (ap suc e))

  pub length-update_at : (f : A → A) (xs : List A) (i : ℕ) → length (update_at i f xs) ≡ length xs
  unfolding update_at
  length-update_at f [] i = refl
  length-update_at f (x ∷ xs) zero = refl
  length-update_at f (x ∷ xs) (suc i) = ap suc (length-update_at f xs i)

  -- `map` of a view that the assignment leaves alone does not see it.
  pub map-update_at {κ} :
      {B : Type κ} (g : A → B) (f : A → A) (same : (a : A) → g (f a) ≡ g a) (xs : List A) (i : ℕ)
      → map g (update_at i f xs) ≡ map g xs
  unfolding update_at
  map-update_at g f same [] i = refl
  map-update_at g f same (x ∷ xs) zero = rw (same x)
  map-update_at g f same (x ∷ xs) (suc i) = rw (map-update_at g f same xs i)

  -- `xs.remove(v)` takes out the very object that a search found, if what equals `v` meets the
  -- search's test and `v` equals itself.
  pub remove_first-eq-pop_at :
      (q p : A → Bool) (sound : (b : A) → q b ≡ true → p b ≡ true) (xs : List A) (i : ℕ) (a : A)
      → q a ≡ true
      → find_ref p xs ≡ some (i, a)
      → remove_first q xs ≡ pop_at i xs
  unfolding find_ref remove_first pop_at
  remove_first-eq-pop_at q p sound [] i a r h = absurd (cc)
  remove_first-eq-pop_at q p sound (x ∷ xs) zero a r h = ground arith
  remove_first-eq-pop_at q p sound (x ∷ xs) (suc i) a r h =
      ground (arith, sound x, remove_first-eq-pop_at q p sound xs i a r)

  -- A total over the list, and how an assignment, a removal and an `append` change it.
  abbrev pub sum_by : (A → ℕ) → List A → ℕ
  sum_by w [] = 0
  sum_by w (x ∷ xs) = w x + sum_by w xs

  pub sum_by-update_at :
      (w : A → ℕ) (f : A → A) (xs : List A) (i : ℕ) (a : A)
      → get_elem? xs i ≡ some a
      → sum_by w (update_at i f xs) + w a ≡ sum_by w xs + w (f a)
  unfolding update_at
  sum_by-update_at w f [] i a h = absurd (cc)
  sum_by-update_at w f (x ∷ xs) zero a h = ground arith
  sum_by-update_at w f (x ∷ xs) (suc i) a h = omega (arith, sum_by-update_at w f xs i a h)

  -- An assignment that leaves the weight of an object alone leaves the total.
  pub sum_by-update_at_same :
      (w : A → ℕ) (f : A → A) (same : (a : A) → w (f a) ≡ w a) (xs : List A) (i : ℕ)
      → sum_by w (update_at i f xs) ≡ sum_by w xs
  unfolding update_at
  sum_by-update_at_same w f same [] i = refl
  sum_by-update_at_same w f same (x ∷ xs) zero = rw (same x)
  sum_by-update_at_same w f same (x ∷ xs) (suc i) = rw (sum_by-update_at_same w f same xs i)

  pub sum_by-pop_at :
      (w : A → ℕ) (xs : List A) (i : ℕ) (a : A)
      → get_elem? xs i ≡ some a
      → sum_by w (pop_at i xs) + w a ≡ sum_by w xs
  unfolding pop_at
  sum_by-pop_at w [] i a h = absurd (cc)
  sum_by-pop_at w (x ∷ xs) zero a h = ground arith
  sum_by-pop_at w (x ∷ xs) (suc i) a h = omega (arith, sum_by-pop_at w xs i a h)

  pub sum_by-append : (w : A → ℕ) (xs ys : List A) → sum_by w (xs ++ ys) ≡ sum_by w xs + sum_by w ys
  sum_by-append w [] ys = omega arith
  sum_by-append w (x ∷ xs) ys = omega (arith, sum_by-append w xs ys)

  pub length-pop_at :
      (xs : List A) (i : ℕ) (a : A) → get_elem? xs i ≡ some a → length (pop_at i xs) + 1 ≡ length xs
  unfolding pop_at
  length-pop_at [] i a h = absurd (cc)
  length-pop_at (x ∷ xs) zero a h = omega arith
  length-pop_at (x ∷ xs) (suc i) a h = omega (arith, length-pop_at xs i a h)

-- How many elements meet a test.
abbrev pub bit : Bool → ℕ
bit true = 1
bit false = 0

module _ {ℓ} {A : Type ℓ} where
  abbrev pub count : (A → Bool) → List A → ℕ
  count p = sum_by (λ x. bit (p x))

  pub find_ref-none : (p : A → Bool) (xs : List A) → find_ref p xs ≡ none → count p xs ≡ 0
  unfolding find_ref
  find_ref-none p [] h = refl
  find_ref-none p (x ∷ xs) h = ground (arith, find_ref-none p xs)
