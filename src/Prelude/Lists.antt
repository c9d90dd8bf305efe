-- ===== src/Prelude/Lists.antt =====
-- Lists measured and indexed by native numbers, under the library's names.
use Prim.Native.Nat.{ℕ, zero, suc, ◌+◌, ◌-◌, ◌<◌, ◌≤◌, min}
use mathlib.Core.Path.{◌≡◌, refl, ap, ◌∙◌}
use mathlib.Core.Logic.{◌≢◌}
use mathlib.Core.List.{List, [], ◌∷◌, ◌++◌, map}
use mathlib.Core.Option.{Option, none, some}
use native.Mathlib.Omega.{arith}

module _ {ℓ} {A : Type ℓ} where
  abbrev pub length : List A → ℕ
  length [] = 0
  length (x ∷ xs) = suc (length xs)

  abbrev pub get_elem? : List A → ℕ → Option A
  get_elem? [] i = none
  get_elem? (x ∷ xs) zero = some x
  get_elem? (x ∷ xs) (suc i) = get_elem? xs i

  -- A write out of bounds changes nothing.
  abbrev pub set : List A → ℕ → A → List A
  set [] i v = []
  set (x ∷ xs) zero v = v ∷ xs
  set (x ∷ xs) (suc i) v = x ∷ set xs i v

  abbrev pub replicate : ℕ → A → List A
  replicate zero a = []
  replicate (suc n) a = a ∷ replicate n a

  abbrev pub drop : ℕ → List A → List A
  drop zero xs = xs
  drop (suc n) [] = []
  drop (suc n) (x ∷ xs) = drop n xs

  abbrev pub take : ℕ → List A → List A
  take zero xs = []
  take (suc n) [] = []
  take (suc n) (x ∷ xs) = x ∷ take n xs

  -- The elements from one index up to another.
  abbrev pub between : ℕ → ℕ → List A → List A
  between b zero xs = []
  between b (suc e) [] = []
  between zero (suc e) (x ∷ xs) = x ∷ between zero e xs
  between (suc b) (suc e) (x ∷ xs) = between b e xs

  -- A predicate on every element, by recursion: tactics read it as a tuple.
  abbrev pub All {κ} : (A → Type κ) → List A → Type κ
  All P [] = Unit
  All P (x ∷ xs) = P x × All P xs

module _ {ℓ} {A : Type ℓ} where
  pub length-append : (xs ys : List A) → length (xs ++ ys) ≡ length xs + length ys
  length-append [] ys = omega arith
  length-append (x ∷ xs) ys = omega (arith, length-append xs ys)

  pub length-replicate : (n : ℕ) (a : A) → length (replicate n a) ≡ n
  length-replicate zero a = refl
  length-replicate (suc n) a = ap suc (length-replicate n a)

  pub length-set : (xs : List A) (i : ℕ) (v : A) → length (set xs i v) ≡ length xs
  length-set [] i v = refl
  length-set (x ∷ xs) zero v = refl
  length-set (x ∷ xs) (suc i) v = ap suc (length-set xs i v)

  pub get_elem?-set_self :
      (xs : List A) (i : ℕ) (v : A) → i < length xs → get_elem? (set xs i v) i ≡ some v
  get_elem?-set_self [] i v h = elim h [ ]
  get_elem?-set_self (x ∷ xs) zero v h = refl
  get_elem?-set_self (x ∷ xs) (suc i) v h = get_elem?-set_self xs i v (omega arith)

  pub get_elem?-set_ne :
      (xs : List A) (i j : ℕ) (v : A) → i ≢ j → get_elem? (set xs i v) j ≡ get_elem? xs j
  get_elem?-set_ne [] i j v h = refl
  get_elem?-set_ne (x ∷ xs) zero zero v h = absurd (h refl)
  get_elem?-set_ne (x ∷ xs) zero (suc j) v h = refl
  get_elem?-set_ne (x ∷ xs) (suc i) zero v h = refl
  get_elem?-set_ne (x ∷ xs) (suc i) (suc j) v h = get_elem?-set_ne xs i j v (λ e. h (ap suc e))

  pub get_elem?-in_range :
      (xs : List A) (i : ℕ) → i < length xs → (a : A) × (get_elem? xs i ≡ some a)
  get_elem?-in_range [] i h = elim h [ ]
  get_elem?-in_range (x ∷ xs) zero h = (x, refl)
  get_elem?-in_range (x ∷ xs) (suc i) h = get_elem?-in_range xs i (omega arith)

  pub lt-of_get_elem? : (xs : List A) (i : ℕ) (a : A) → get_elem? xs i ≡ some a → i < length xs
  lt-of_get_elem? [] i a e = cc
  lt-of_get_elem? (x ∷ xs) zero a e = omega arith
  lt-of_get_elem? (x ∷ xs) (suc i) a e = omega (arith, lt-of_get_elem? xs i a e)

module _ {ℓ} {A : Type ℓ} where
  pub between-empty : (b e : ℕ) (xs : List A) → e ≤ b → between b e xs ≡ []
  between-empty b zero xs h = refl
  between-empty b (suc e) [] h = refl
  between-empty zero (suc e) (x ∷ xs) h = absurd (omega arith)
  between-empty (suc b) (suc e) (x ∷ xs) h = between-empty b e xs (omega arith)

  pub between-step :
      (b e : ℕ) (xs : List A) (x : A)
      → b < e
      → get_elem? xs b ≡ some x
      → between b e xs ≡ x ∷ between (suc b) e xs
  between-step b zero xs x h at = absurd (omega arith)
  between-step b (suc e) [] x h at = cc
  between-step zero (suc e) (y ∷ xs) x h at = ground (arith, at)
  between-step (suc b) (suc e) (y ∷ xs) x h at = between-step b e xs x (omega arith) at

  pub between-append :
      (b k e : ℕ) (xs : List A) → b ≤ k → k ≤ e → between b k xs ++ between k e xs ≡ between b e xs
  between-append b zero e xs h g = ap (λ n. between n e xs) (omega arith)
  between-append b (suc k) zero xs h g = absurd (omega arith)
  between-append b (suc k) (suc e) [] h g = refl
  between-append zero (suc k) (suc e) (x ∷ xs) h g =
      ap (λ l. x ∷ l) (between-append zero k e xs (omega arith) (omega arith))
  between-append (suc b) (suc k) (suc e) (x ∷ xs) h g =
      between-append b k e xs (omega arith) (omega arith)

  pub length-between : (b e : ℕ) (xs : List A) → length (between b e xs) ≡ min e (length xs) - b
  length-between b zero xs = ground arith
  length-between b (suc e) [] = ground arith
  length-between zero (suc e) (x ∷ xs) = ground (arith, length-between zero e xs)
  length-between (suc b) (suc e) (x ∷ xs) = ground (arith, length-between b e xs)

  -- An end behind the list is no other than the end of the list.
  pub between-min : (b e : ℕ) (xs : List A) → between b (min (length xs) e) xs ≡ between b e xs
  between-min b zero xs = let e : min (length xs) 0 ≡ 0 = ground arith in ap (λ n. between b n xs) e
  between-min b (suc e) [] = let m : min 0 (suc e) ≡ 0 = ground arith in ap (λ n. between b n []) m
  between-min zero (suc e) (x ∷ xs) =
      let m : min (suc (length xs)) (suc e) ≡ suc (min (length xs) e) = ground arith in
      ap (λ n. between zero n (x ∷ xs)) m ∙ ap (λ l. x ∷ l) (between-min zero e xs)
  between-min (suc b) (suc e) (x ∷ xs) =
      let m : min (suc (length xs)) (suc e) ≡ suc (min (length xs) e) = ground arith in
      ap (λ n. between (suc b) n (x ∷ xs)) m ∙ between-min b e xs

pub length-map {ℓ κ} :
    {A : Type ℓ} {B : Type κ} (f : A → B) (xs : List A) → length (map f xs) ≡ length xs
length-map f [] = refl
length-map f (x ∷ xs) = ap suc (length-map f xs)

module _ {ℓ κ} {A : Type ℓ} (P : A → Type κ) where
  pub All-get_elem? : (xs : List A) (i : ℕ) (a : A) → All P xs → get_elem? xs i ≡ some a → P a
  All-get_elem? [] i a h e = cc
  All-get_elem? (x ∷ xs) zero a h e = ground (arith, h.0)
  All-get_elem? (x ∷ xs) (suc i) a h e = All-get_elem? xs i a h.1 e

  pub All-set : (xs : List A) (i : ℕ) (v : A) → All P xs → P v → All P (set xs i v)
  All-set [] i v h p = h
  All-set (x ∷ xs) zero v h p = (p, h.1)
  All-set (x ∷ xs) (suc i) v h p = (h.0, All-set xs i v h.1 p)

  pub All-replicate : (n : ℕ) (a : A) → P a → All P (replicate n a)
  All-replicate zero a p = tt
  All-replicate (suc n) a p = (p, All-replicate n a p)

  pub All-append : (xs ys : List A) → All P xs → All P ys → All P (xs ++ ys)
  All-append [] ys hx hy = hy
  All-append (x ∷ xs) ys hx hy = (hx.0, All-append xs ys hx.1 hy)

pub All-mono {ℓ κ μ} :
    {A : Type ℓ} {P : A → Type κ} (Q : A → Type μ) (xs : List A)
    → ((x : A) → P x → Q x)
    → All P xs
    → All Q xs
All-mono Q [] f h = tt
All-mono Q (x ∷ xs) f h = (f x h.0, All-mono Q xs f h.1)

module _ {ℓ} {A : Type ℓ} where
  pub take-take : (n : ℕ) (xs : List A) → take (min n (length xs)) (take n xs) ≡ take n xs
  take-take zero xs = let m : min 0 (length xs) ≡ 0 = ground arith in ap (λ n. take {A = A} n []) m
  take-take (suc n) [] = let m : min (suc n) 0 ≡ 0 = ground arith in ap (λ k. take {A = A} k []) m
  take-take (suc n) (x ∷ xs) =
      let m : min (suc n) (suc (length xs)) ≡ suc (min n (length xs)) = ground arith in
      ap (λ k. take k (x ∷ take n xs)) m ∙ ap (λ l. x ∷ l) (take-take n xs)

  pub take-all : (n : ℕ) (xs : List A) → length xs ≤ n → take n xs ≡ xs
  take-all zero [] h = refl
  take-all zero (x ∷ xs) h = absurd (omega (arith, h))
  take-all (suc n) [] h = refl
  take-all (suc n) (x ∷ xs) h = ap (λ l. x ∷ l) (take-all n xs (omega (arith, h)))

  pub drop-all : (n : ℕ) (xs : List A) → length xs ≤ n → drop n xs ≡ []
  drop-all zero [] h = refl
  drop-all zero (x ∷ xs) h = absurd (omega (arith, h))
  drop-all (suc n) [] h = refl
  drop-all (suc n) (x ∷ xs) h = drop-all n xs (omega (arith, h))

  pub take-append-drop : (n : ℕ) (xs : List A) → take n xs ++ drop n xs ≡ xs
  take-append-drop zero xs = refl
  take-append-drop (suc n) [] = refl
  take-append-drop (suc n) (x ∷ xs) = ap (λ l. x ∷ l) (take-append-drop n xs)

  pub length-take-drop : (n : ℕ) (xs : List A) → length (take n xs) + length (drop n xs) ≡ length xs
  length-take-drop zero xs = omega arith
  length-take-drop (suc n) [] = omega arith
  length-take-drop (suc n) (x ∷ xs) = omega (arith, length-take-drop n xs)

  pub length-take : (n : ℕ) (xs : List A) → length (take n xs) ≡ min n (length xs)
  length-take zero xs = omega arith
  length-take (suc n) [] = omega arith
  length-take (suc n) (x ∷ xs) = omega (arith, length-take n xs)
