-- ===== src/Prelude/Lists.antt =====
-- Lists measured and indexed by native numbers, under the library's names.
use Prim.Native.Nat.{ℕ, zero, suc, ◌+◌, ◌-◌, ◌<◌, min}
use mathlib.Core.Path.{◌≡◌, refl, ap}
use mathlib.Core.Logic.{◌≢◌}
use mathlib.Core.List.{List, [], ◌∷◌, ◌++◌, map}
use mathlib.Core.Option.{Option, none, some}
use native.Mathlib.Omega.{arith}

module _ {ℓ} {A : Type ℓ} where
  abbrev pub length : List A → ℕ
  length [] = 0
  length (x ∷ xs) = suc (length xs)

  abbrev pub get_elem? : List A → ℕ → Option A
  get_elem? [] i = none
  get_elem? (x ∷ xs) zero = some x
  get_elem? (x ∷ xs) (suc i) = get_elem? xs i

  -- A write out of bounds changes nothing.
  abbrev pub set : List A → ℕ → A → List A
  set [] i v = []
  set (x ∷ xs) zero v = v ∷ xs
  set (x ∷ xs) (suc i) v = x ∷ set xs i v

  pub length-append : (xs ys : List A) → length (xs ++ ys) ≡ length xs + length ys
  length-append [] ys = omega arith
  length-append (x ∷ xs) ys = omega (arith, length-append xs ys)

module _ {ℓ} {A : Type ℓ} where
  pub length-set : (xs : List A) (i : ℕ) (v : A) → length (set xs i v) ≡ length xs
  length-set [] i v = refl
  length-set (x ∷ xs) zero v = refl
  length-set (x ∷ xs) (suc i) v = ap suc (length-set xs i v)

  pub get_elem?-set_self :
      (xs : List A) (i : ℕ) (v : A) → i < length xs → get_elem? (set xs i v) i ≡ some v
  get_elem?-set_self [] i v h = elim h [ ]
  get_elem?-set_self (x ∷ xs) zero v h = refl
  get_elem?-set_self (x ∷ xs) (suc i) v h = get_elem?-set_self xs i v (omega arith)

  pub get_elem?-set_ne :
      (xs : List A) {i j : ℕ} (v : A) → i ≢ j → get_elem? (set xs i v) j ≡ get_elem? xs j
  get_elem?-set_ne [] v h = refl
  get_elem?-set_ne (x ∷ xs) {i = zero} {j = zero} v h = absurd (h refl)
  get_elem?-set_ne (x ∷ xs) {i = zero} {j = suc j} v h = refl
  get_elem?-set_ne (x ∷ xs) {i = suc i} {j = zero} v h = refl
  get_elem?-set_ne (x ∷ xs) {i = suc i} {j = suc j} v h = get_elem?-set_ne xs v (λ e. h (ap suc e))

module _ {ℓ} {A : Type ℓ} where
  abbrev pub get_or : List A → ℕ → A → A
  get_or [] i d = d
  get_or (x ∷ xs) zero d = x
  get_or (x ∷ xs) (suc i) d = get_or xs i d

  abbrev pub take : ℕ → List A → List A
  take zero xs = []
  take (suc n) [] = []
  take (suc n) (x ∷ xs) = x ∷ take n xs

  abbrev pub drop : ℕ → List A → List A
  drop zero xs = xs
  drop (suc n) [] = []
  drop (suc n) (x ∷ xs) = drop n xs

  abbrev pub replicate : ℕ → A → List A
  replicate zero a = []
  replicate (suc n) a = a ∷ replicate n a

  pub take-append-drop : (n : ℕ) (xs : List A) → take n xs ++ drop n xs ≡ xs
  take-append-drop zero xs = refl
  take-append-drop (suc n) [] = refl
  take-append-drop (suc n) (x ∷ xs) = rw (take-append-drop n xs)

  pub length-take : (n : ℕ) (xs : List A) → length (take n xs) ≡ min n (length xs)
  length-take zero xs = omega arith
  length-take (suc n) [] = omega arith
  length-take (suc n) (x ∷ xs) = omega (arith, length-take n xs)

  pub length-drop : (n : ℕ) (xs : List A) → length (drop n xs) ≡ length xs - n
  length-drop zero xs = omega arith
  length-drop (suc n) [] = omega arith
  length-drop (suc n) (x ∷ xs) = omega (arith, length-drop n xs)

  pub length-replicate : (n : ℕ) (a : A) → length (replicate n a) ≡ n
  length-replicate zero a = refl
  length-replicate (suc n) a = ap suc (length-replicate n a)

  pub length-map {κ} : {B : Type κ} (xs : List A) (f : A → B) → length (map f xs) ≡ length xs
  length-map [] f = refl
  length-map (x ∷ xs) f = ap suc (length-map xs f)

module _ {ℓ} {A : Type ℓ} where
  pub get_or-drop : (xs : List A) (n k : ℕ) (d : A) → get_or xs (n + k) d ≡ get_or (drop n xs) k d
  get_or-drop xs zero k d = let e : 0 + k ≡ k = omega arith in rw e
  get_or-drop [] (suc n) k d = refl
  get_or-drop (x ∷ xs) (suc n) k d =
      let e : suc n + k ≡ suc (n + k) = omega arith in rw e (get_or-drop xs n k d)

  pub drop-drop : (xs : List A) (n k : ℕ) → drop (n + k) xs ≡ drop k (drop n xs)
  drop-drop xs zero k = let e : 0 + k ≡ k = omega arith in rw e
  drop-drop [] (suc n) zero = let e : suc n + 0 ≡ suc n = omega arith in rw e
  drop-drop [] (suc n) (suc k) = let e : suc n + suc k ≡ suc (n + suc k) = omega arith in rw e
  drop-drop (x ∷ xs) (suc n) k =
      let e : suc n + k ≡ suc (n + k) = omega arith in rw e (drop-drop xs n k)

  pub drop-append_self : (xs ys : List A) → drop (length xs) (xs ++ ys) ≡ ys
  drop-append_self [] ys = refl
  drop-append_self (x ∷ xs) ys = drop-append_self xs ys

  pub take-append_self : (xs ys : List A) → take (length xs) (xs ++ ys) ≡ xs
  take-append_self [] ys = refl
  take-append_self (x ∷ xs) ys = rw (take-append_self xs ys)

  -- `P` holds of each item.
  abbrev pub All {κ} : (A → Type κ) → List A → Type κ
  All P [] = Unit
  All P (x ∷ xs) = P x × All P xs

  pub All-append {κ} : (P : A → Type κ) (xs ys : List A) → All P xs → All P ys → All P (xs ++ ys)
  All-append P [] ys h k = k
  All-append P (x ∷ xs) ys h k = (h.0, All-append P xs ys h.1 k)
