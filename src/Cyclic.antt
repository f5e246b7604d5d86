-- ===== src/Cyclic.antt =====
-- The bytes of a circular buffer: `n` of them from index `first` on, going round at `size`.
use native.Mathlib.Nat.{mod-add-mod, mod-eq_of_lt, mod-eq-sub-mod}
use native.Mathlib.Decide.{dec_lt}
use ammc.Base.{
  ℕ, zero, suc, ◌+◌, ◌-◌, ◌%◌, ◌≤◌, ◌<◌, ◌≡◌, ◌≢◌, ◌⊎◌, inl, inr, refl, sym, ap, ap₂, ◌∙◌, List, [],
  ◌∷◌, ◌++◌, length, get_or, set, get_or-set_self, get_or-set_ne, arith,
}

-- `f 0`, …, `f (n - 1)`
abbrev pub collect : (ℕ → ℕ) → ℕ → List ℕ
collect f zero = []
collect f (suc n) = f 0 ∷ collect (λ k. f (suc k)) n

pub length-collect : (f : ℕ → ℕ) (n : ℕ) → length (collect f n) ≡ n
length-collect f zero = refl
length-collect f (suc n) = ap suc (length-collect (λ k. f (suc k)) n)

collect_last : (f : ℕ → ℕ) (n : ℕ) → collect f (suc n) ≡ collect f n ++ f n ∷ []
collect_last f zero = refl
collect_last f (suc n) = ap (λ t. f 0 ∷ t) (collect_last (λ k. f (suc k)) n)

collect_ext : (f g : ℕ → ℕ) (n : ℕ) → ((k : ℕ) → k < n → f k ≡ g k) → collect f n ≡ collect g n
collect_ext f g zero h = refl
collect_ext f g (suc n) h =
    ap₂ ◌∷◌ (h 0 (omega arith))
      (collect_ext (λ k. f (suc k)) (λ k. g (suc k)) n (λ k p. h (suc k) (omega arith)))

-- The byte at distance `k` from the first.
abbrev pub slot : List ℕ → ℕ → ℕ → ℕ → ℕ
slot base size first k = get_or base ((first + k) % size) 0

abbrev pub held : List ℕ → ℕ → ℕ → ℕ → List ℕ
held base size first n = collect (slot base size first) n

-- Indices at different distances below `size` differ.
index_ne :
    (size first j k : ℕ) → first < size → j < k → k < size → (first + k) % size ≢ (first + j) % size
index_ne size first j k p q r = elim (dec_lt (first + k) size) [
  | yes a ↦ omega (
    arith,
    mod-eq_of_lt {n = first + k} {m = size} a,
    mod-eq_of_lt {n = first + j} {m = size} (omega arith),
  )
  | no a ↦ elim (dec_lt (first + j) size) [
    | yes b ↦ omega (
      arith,
      mod-eq-sub-mod {n = first + k} {m = size} (omega arith),
      mod-eq_of_lt {n = first + k - size} {m = size} (omega arith),
      mod-eq_of_lt {n = first + j} {m = size} b,
    )
    | no b ↦ omega (
      arith,
      mod-eq-sub-mod {n = first + k} {m = size} (omega arith),
      mod-eq_of_lt {n = first + k - size} {m = size} (omega arith),
      mod-eq-sub-mod {n = first + j} {m = size} (omega arith),
      mod-eq_of_lt {n = first + j - size} {m = size} (omega arith),
    )
  ]
]

-- A byte written just behind the held ones joins them.
pub held-set :
    (base : List ℕ) (size first n last v : ℕ)
    → size ≤ length base
    → first < size
    → n < size
    → last ≡ (first + n) % size
    → last < size
    → held (set base last v) size first (suc n) ≡ held base size first n ++ v ∷ []
held-set base size first n last v fits p q e below =
    collect_last (slot (set base last v) size first) n
    ∙ ap₂ (λ t b. t ++ b ∷ [])
        (collect_ext (slot (set base last v) size first) (slot base size first) n λ k h.
          get_or-set_ne base last ((first + k) % size) v 0
            (λ d. index_ne size first k n p h q (sym e ∙ d)))
        (ap (λ i. get_or (set base last v) i 0) (sym e)
          ∙ get_or-set_self base last v 0 (omega arith))

-- Without its first byte the buffer holds the others.
pub held-tail :
    (base : List ℕ) (size first n : ℕ)
    → first < size
    → held base size first (suc n) ≡ get_or base first 0 ∷ held base size ((first + 1) % size) n
held-tail base size first n p = ap₂ ◌∷◌ (ap (λ i. get_or base i 0) (grind arith)) (
    collect_ext (λ k. slot base size first (suc k)) (slot base size ((first + 1) % size)) n
      λ k h. ap (λ i. get_or base i 0) (shift k))
  where
    shift : (k : ℕ) → (first + suc k) % size ≡ ((first + 1) % size + k) % size
    shift k = rw mod-add-mod (ap (λ t. t % size) (omega arith))

-- The number of steps from `first` to `last`, as the code computes it.
abbrev pub distance : ℕ → ℕ → ℕ → ℕ
distance size first last = (last + size - first) % size

distance_cases :
    (size first last : ℕ)
    → first < size
    → last < size
    → ((first ≤ last) × (distance size first last ≡ last - first))
      ⊎ ((last < first) × (distance size first last ≡ last + size - first))
distance_cases size first last p q = elim (dec_lt last first) [
  | yes h ↦ inr (h, mod-eq_of_lt (omega arith))
  | no h ↦ inl (
    omega arith,
    mod-eq-sub-mod {n = last + size - first} {m = size} (omega arith)
        ∙ mod-eq_of_lt {n = last + size - first - size} {m = size} (omega arith)
        ∙ omega arith,
  )
]

next_cases :
    (size i : ℕ)
    → i < size
    → ((suc i < size) × ((i + 1) % size ≡ suc i)) ⊎ ((suc i ≡ size) × ((i + 1) % size ≡ 0))
next_cases size i p = elim (dec_lt (suc i) size) [
  | yes h ↦ inl (h, mod-eq_of_lt {n = i + 1} {m = size} (omega arith) ∙ omega arith)
  | no h ↦ inr (omega arith, grind arith)
]

module _ (size first last : ℕ) (p : first < size) (q : last < size) where
  pub distance-lt : distance size first last < size
  distance-lt = omega (arith, distance_cases size first last p q)

  -- The last index from the first and the distance.
  pub add-distance : last ≡ (first + distance size first last) % size
  add-distance = elim (distance_cases size first last p q) [
    | inl (h, e) ↦
        rw e (sym (mod-eq_of_lt {n = first + (last - first)} (omega arith) ∙ omega arith))
    | inr (h, e) ↦ rw e (
        sym (
          mod-eq-sub-mod {n = first + (last + size - first)} {m = size} (omega arith)
          ∙ mod-eq_of_lt {n = first + (last + size - first) - size} {m = size} (omega arith)
          ∙ omega arith))
  ]

  -- One step further on, unless that closes the circle.
  pub distance_next :
      first ≢ (last + 1) % size
      → distance size first ((last + 1) % size) ≡ suc (distance size first last)
  distance_next ne = omega (
    arith,
    distance_cases size first last p q,
    next_cases size last q,
    distance_cases size first ((last + 1) % size) p (omega arith),
  )

  pub distance_closes : first ≡ (last + 1) % size → suc (distance size first last) ≡ size
  distance_closes e = omega (arith, distance_cases size first last p q, next_cases size last q)

  pub distance_pred :
      first ≢ last → suc (distance size ((first + 1) % size) last) ≡ distance size first last
  distance_pred ne = omega (
    arith,
    distance_cases size first last p q,
    next_cases size first p,
    distance_cases size ((first + 1) % size) last (omega arith) q,
  )

pub distance_next_self :
    (size i : ℕ) → 2 ≤ size → i < size → suc (distance size ((i + 1) % size) i) ≡ size
distance_next_self size i h p =
    omega (arith, next_cases size i p, distance_cases size ((i + 1) % size) i (omega arith) p)

pub distance_self : (size i : ℕ) → i < size → distance size i i ≡ 0
distance_self size i p = omega (arith, distance_cases size i i p p)

pub distance_zero :
    (size first last : ℕ) → first < size → last < size → distance size first last ≡ 0 → first ≡ last
distance_zero size first last p q e = omega (arith, distance_cases size first last p q)
