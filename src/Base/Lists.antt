-- ===== src/Base/Lists.antt =====
-- C arrays as lists, measured and indexed by native numbers, under the library's names.
use Prim.Native.Nat.{ℕ, zero, suc, ◌+◌, ◌-◌, ◌≤◌, ◌<◌, min}
use mathlib.Core.Path.{◌≡◌, refl, ap}
use mathlib.Core.Logic.{◌≢◌, ◌⊎◌, inl, inr}
use mathlib.Core.List.{List, [], ◌∷◌, ◌++◌}
use mathlib.Core.Option.{Option, none, some}
use native.Mathlib.Omega.{arith}

module _ {ℓ} {A : Type ℓ} where
  abbrev pub length : List A → ℕ
  length [] = 0
  length (x ∷ xs) = suc (length xs)

  abbrev pub get_or : List A → ℕ → A → A
  get_or [] i d = d
  get_or (x ∷ xs) zero d = x
  get_or (x ∷ xs) (suc i) d = get_or xs i d

  abbrev pub get_elem? : List A → ℕ → Option A
  get_elem? [] i = none
  get_elem? (x ∷ xs) zero = some x
  get_elem? (x ∷ xs) (suc i) = get_elem? xs i

  -- A write out of bounds changes nothing.
  abbrev pub set : List A → ℕ → A → List A
  set [] i v = []
  set (x ∷ xs) zero v = v ∷ xs
  set (x ∷ xs) (suc i) v = x ∷ set xs i v

  abbrev pub take : ℕ → List A → List A
  take zero xs = []
  take (suc n) [] = []
  take (suc n) (x ∷ xs) = x ∷ take n xs

  abbrev pub drop : ℕ → List A → List A
  drop zero xs = xs
  drop (suc n) [] = []
  drop (suc n) (x ∷ xs) = drop n xs

  -- `memcpy(dst, src, length src)`; what does not fit into `dst` is cut off.
  abbrev pub overlay : List A → List A → List A
  overlay [] ys = []
  overlay (x ∷ xs) [] = x ∷ xs
  overlay (x ∷ xs) (y ∷ ys) = y ∷ overlay xs ys

  abbrev pub All {κ} : (A → Type κ) → List A → Type κ
  All P [] = Unit
  All P (x ∷ xs) = P x × All P xs

  -- Two lists of one length, whose items are related in pairs.
  abbrev pub All2 : (A → A → Type 0) → List A → List A → Type 0
  All2 R [] [] = Unit
  All2 R (x ∷ xs) (y ∷ ys) = R x y × All2 R xs ys
  All2 R _ _ = ⊥

  pub All2-trans :
      {R S T : A → A → Type 0}
      → ((x y z : A) → R x y → S y z → T x z)
      → (xs ys zs : List A) → All2 R xs ys
      → All2 S ys zs
      → All2 T xs zs
  All2-trans f [] [] [] r s = tt
  All2-trans f [] [] (z ∷ zs) r s = absurd s
  All2-trans f [] (y ∷ ys) zs r s = absurd r
  All2-trans f (x ∷ xs) [] zs r s = absurd r
  All2-trans f (x ∷ xs) (y ∷ ys) [] r s = absurd s
  All2-trans f (x ∷ xs) (y ∷ ys) (z ∷ zs) r s = (f x y z r.0 s.0, All2-trans f xs ys zs r.1 s.1)

  pub All2-map :
      {R S : A → A → Type 0}
      → ((x y : A) → R x y → S x y)
      → (xs ys : List A) → All2 R xs ys
      → All2 S xs ys
  All2-map f [] [] r = tt
  All2-map f [] (y ∷ ys) r = absurd r
  All2-map f (x ∷ xs) [] r = absurd r
  All2-map f (x ∷ xs) (y ∷ ys) r = (f x y r.0, All2-map f xs ys r.1)

  pub All2-All :
      {R : A → A → Type 0} {P : A → Type 0}
      → ((x y : A) → R x y → P y)
      → (xs ys : List A) → All2 R xs ys
      → All P ys
  All2-All f [] [] r = tt
  All2-All f [] (y ∷ ys) r = absurd r
  All2-All f (x ∷ xs) [] r = absurd r
  All2-All f (x ∷ xs) (y ∷ ys) r = (f x y r.0, All2-All f xs ys r.1)

pub List-cases {ℓ} :
    {A : Type ℓ} (xs : List A) → (xs ≡ []) ⊎ ((x : A) × (ys : List A) × (xs ≡ x ∷ ys))
List-cases [] = inl refl
List-cases (x ∷ xs) = inr (x, xs, refl)

module _ {ℓ} {A : Type ℓ} where
  pub length-append : (xs ys : List A) → length (xs ++ ys) ≡ length xs + length ys
  length-append [] ys = omega arith
  length-append (x ∷ xs) ys = omega (arith, length-append xs ys)

  pub length-zero : (xs : List A) → length xs ≡ 0 → xs ≡ []
  length-zero [] e = refl
  length-zero (x ∷ xs) e = absurd (omega arith)

  pub length-set : (xs : List A) (i : ℕ) (v : A) → length (set xs i v) ≡ length xs
  length-set [] i v = refl
  length-set (x ∷ xs) zero v = refl
  length-set (x ∷ xs) (suc i) v = ap suc (length-set xs i v)

  pub length-take : (n : ℕ) (xs : List A) → length (take n xs) ≡ min n (length xs)
  length-take zero xs = omega arith
  length-take (suc n) [] = omega arith
  length-take (suc n) (x ∷ xs) = omega (arith, length-take n xs)

  pub length-drop : (n : ℕ) (xs : List A) → length (drop n xs) ≡ length xs - n
  length-drop zero xs = omega arith
  length-drop (suc n) [] = omega arith
  length-drop (suc n) (x ∷ xs) = omega (arith, length-drop n xs)

  pub length-overlay : (xs ys : List A) → length (overlay xs ys) ≡ length xs
  length-overlay [] ys = refl
  length-overlay (x ∷ xs) [] = refl
  length-overlay (x ∷ xs) (y ∷ ys) = ap suc (length-overlay xs ys)

  pub take-append : (xs ys : List A) → take (length xs) (xs ++ ys) ≡ xs
  take-append [] ys = refl
  take-append (x ∷ xs) ys = ap (λ t. x ∷ t) (take-append xs ys)

  pub drop-append : (xs ys : List A) → drop (length xs) (xs ++ ys) ≡ ys
  drop-append [] ys = refl
  drop-append (x ∷ xs) ys = drop-append xs ys

  pub take_all : (n : ℕ) (xs : List A) → length xs ≤ n → take n xs ≡ xs
  take_all zero [] h = refl
  take_all zero (x ∷ xs) h = absurd (omega arith)
  take_all (suc n) [] h = refl
  take_all (suc n) (x ∷ xs) h = ap (λ t. x ∷ t) (take_all n xs (omega arith))

  -- What a copy that fits leaves in front.
  pub overlay-append-drop :
      (xs ys : List A) → length ys ≤ length xs → overlay xs ys ≡ ys ++ drop (length ys) xs
  overlay-append-drop [] [] h = refl
  overlay-append-drop [] (y ∷ ys) h = absurd (omega arith)
  overlay-append-drop (x ∷ xs) [] h = refl
  overlay-append-drop (x ∷ xs) (y ∷ ys) h =
      ap (λ t. y ∷ t) (overlay-append-drop xs ys (omega arith))

  pub set-append : (xs ys : List A) (v : A) → set (xs ++ ys) (length xs) v ≡ xs ++ set ys 0 v
  set-append [] ys v = refl
  set-append (x ∷ xs) ys v = ap (λ t. x ∷ t) (set-append xs ys v)

  pub get_or-set_self :
      (xs : List A) (i : ℕ) (v d : A) → i < length xs → get_or (set xs i v) i d ≡ v
  get_or-set_self [] i v d h = absurd (omega arith)
  get_or-set_self (x ∷ xs) zero v d h = refl
  get_or-set_self (x ∷ xs) (suc i) v d h = get_or-set_self xs i v d (omega arith)

  pub get_or-set_ne :
      (xs : List A) (i j : ℕ) (v d : A) → i ≢ j → get_or (set xs i v) j d ≡ get_or xs j d
  get_or-set_ne [] i j v d h = refl
  get_or-set_ne (x ∷ xs) zero zero v d h = absurd (h refl)
  get_or-set_ne (x ∷ xs) zero (suc j) v d h = refl
  get_or-set_ne (x ∷ xs) (suc i) zero v d h = refl
  get_or-set_ne (x ∷ xs) (suc i) (suc j) v d h = get_or-set_ne xs i j v d (λ e. h (ap suc e))

  pub get_elem?-eq-get_or :
      (xs : List A) (i : ℕ) (d : A) → i < length xs → get_elem? xs i ≡ some (get_or xs i d)
  get_elem?-eq-get_or [] i d h = absurd (omega arith)
  get_elem?-eq-get_or (x ∷ xs) zero d h = refl
  get_elem?-eq-get_or (x ∷ xs) (suc i) d h = get_elem?-eq-get_or xs i d (omega arith)

  pub get_or-append : (xs ys : List A) (y d : A) → get_or (xs ++ y ∷ ys) (length xs) d ≡ y
  get_or-append [] ys y d = refl
  get_or-append (x ∷ xs) ys y d = get_or-append xs ys y d

  pub take-get_or :
      (n : ℕ) (xs : List A) (d : A)
      → n < length xs
      → take (suc n) xs ≡ take n xs ++ get_or xs n d ∷ []
  take-get_or n [] d h = absurd (omega arith)
  take-get_or zero (x ∷ xs) d h = refl
  take-get_or (suc n) (x ∷ xs) d h = ap (λ t. x ∷ t) (take-get_or n xs d (omega arith))

pub All-get_or {ℓ κ} :
    {A : Type ℓ} (P : A → Type κ) (xs : List A) (i : ℕ) (d : A) → All P xs → P d → P (get_or xs i d)
All-get_or P [] i d h q = q
All-get_or P (x ∷ xs) zero d h q = h.0
All-get_or P (x ∷ xs) (suc i) d h q = All-get_or P xs i d h.1 q

-- A byte array.
abbrev pub IsBytes : List ℕ → Type 0
IsBytes = All (λ b. b < 256)

pub IsBytes-append : (xs ys : List ℕ) → IsBytes xs → IsBytes ys → IsBytes (xs ++ ys)
IsBytes-append [] ys p q = q
IsBytes-append (x ∷ xs) ys p q = (p.0, IsBytes-append xs ys p.1 q)

pub IsBytes-parts :
    (xs ys : List ℕ) (y : ℕ) → IsBytes (xs ++ y ∷ ys) → IsBytes xs × (y < 256) × IsBytes ys
IsBytes-parts [] ys y p = (tt, p.0, p.1)
IsBytes-parts (x ∷ xs) ys y p =
    let (hx, hy, hys) = IsBytes-parts xs ys y p.1 in ((p.0, hx), hy, hys)
