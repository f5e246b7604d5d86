-- ===== src/Base/Parts.antt =====
-- A list of which a part has been read or written, at the index behind that part.
use Prim.Native.Nat.{ℕ, ◌<◌}
use mathlib.Core.Path.{◌≡◌, sym, ap, ap₂, ◌∙◌}
use mathlib.Core.List.{List, [], ◌∷◌, ◌++◌, append_assoc}
use native.Mathlib.Omega.{arith}
use ammc.Base.Lists.{length, length-append, get_or, get_or-append, set, set-append}

module _ {ℓ} {A : Type ℓ} {xs : List A} {n : ℕ} (pre post : List A) (x : A) where
  pub length-append_at : xs ≡ pre ++ (x ∷ post) → n ≡ length pre → n < length xs
  length-append_at e idx = omega (arith, idx, ap length e, length-append {ℓ} pre (x ∷ post))

  pub get_or-append_at : (d : A) → xs ≡ pre ++ (x ∷ post) → n ≡ length pre → get_or xs n d ≡ x
  get_or-append_at d e idx = ap₂ (λ l i. get_or l i d) e idx ∙ get_or-append pre post x d

  pub set-append_at :
      (v : A) → xs ≡ pre ++ (x ∷ post) → n ≡ length pre → set xs n v ≡ (pre ++ v ∷ []) ++ post
  set-append_at v e idx =
      ap₂ (λ l i. set l i v) e idx
      ∙ set-append pre (x ∷ post) v
      ∙ sym (append_assoc pre (v ∷ []) post)
