-- ===== src/Client/Shell/Arrays.antt =====
-- What the C library documents of `qsort` and `bsearch`, and what follows for the array of the
-- shell's commands.
use ammc.Base.{
  ℕ, Bool, true, false, not, ◌&&◌, ◌≡◌, ◌⊎◌, ◌∙◌, refl, sym, ap, ap₂, Option, none, some, List, [],
  ◌∷◌, if◌then◌else◌, inl, inr, Bool-cases, arith,
}
use ammc.Client.Shell.{ShellCommand, Libc, same_name, name_before}

pub same_name_eq : (a b : List ℕ) → same_name a b ≡ true → a ≡ b
unfolding same_name
same_name_eq [] [] same = refl
same_name_eq [] (d ∷ ds) same = ground arith
same_name_eq (c ∷ cs) [] same = ground arith
same_name_eq (c ∷ cs) (d ∷ ds) same =
    ap₂ (λ x xs. x ∷ xs) (ground arith) (same_name_eq cs ds (ground arith))

module _ {S : Type 0} where
  -- The command is in the array.
  abbrev pub Has : ShellCommand S → List (ShellCommand S) → Type 0
  Has cmd [] = ⊥
  Has cmd (c ∷ cmds) = (cmd ≡ c) ⊎ Has cmd cmds

  -- No command is behind one that its name comes before.
  unfoldable pub are_sorted : List (ShellCommand S) → Bool
  are_sorted [] = true
  are_sorted (a ∷ []) = true
  are_sorted (a ∷ b ∷ cmds) = not (name_before b.name a.name) && are_sorted (b ∷ cmds)

  -- `qsort` permutes an array and leaves it sorted; `bsearch` on a sorted array gives a command of the
  -- name, or none if there is none.
  pub record IsDocumented (libc : Libc S) : Type 0 where
    pub sorts : (cmds : List (ShellCommand S)) → are_sorted (libc.sort cmds) ≡ true
    pub keeps :
        (cmd : ShellCommand S) (cmds : List (ShellCommand S))
        → Has cmd cmds
        → Has cmd (libc.sort cmds)
    pub adds_none :
        (cmd : ShellCommand S) (cmds : List (ShellCommand S))
        → Has cmd (libc.sort cmds)
        → Has cmd cmds
    pub finds :
        (name : List ℕ) (cmds : List (ShellCommand S)) (cmd : ShellCommand S)
        → are_sorted cmds ≡ true
        → libc.search name cmds ≡ some cmd
        → Has cmd cmds × (same_name name cmd.name ≡ true)
    pub misses :
        (name : List ℕ) (cmds : List (ShellCommand S)) (cmd : ShellCommand S)
        → are_sorted cmds ≡ true
        → libc.search name cmds ≡ none
        → Has cmd cmds
        → same_name name cmd.name ≡ false

  -- No two commands of an array have the same name.
  unfoldable pub is_fresh : List ℕ → List (ShellCommand S) → Bool
  is_fresh name [] = true
  is_fresh name (c ∷ cmds) = not (same_name name c.name) && is_fresh name cmds

  unfoldable pub are_distinct : List (ShellCommand S) → Bool
  are_distinct [] = true
  are_distinct (c ∷ cmds) = is_fresh c.name cmds && are_distinct cmds

  -- The command of a name in an array in any order.
  unfoldable pub named : List ℕ → List (ShellCommand S) → Option (ShellCommand S)
  named name [] = none
  named name (c ∷ cmds) = if same_name name c.name then some c else named name cmds

  is_fresh-Has :
      (name : List ℕ) (cmd : ShellCommand S) (cmds : List (ShellCommand S))
      → is_fresh name cmds ≡ true
      → Has cmd cmds
      → same_name name cmd.name ≡ false
  unfolding is_fresh
  is_fresh-Has name cmd [] fresh has = absurd has
  is_fresh-Has name cmd (c ∷ cmds) fresh (inl e) = ap (λ x. same_name name x.name) e ∙ ground arith
  is_fresh-Has name cmd (c ∷ cmds) fresh (inr has) = is_fresh-Has name cmd cmds (ground arith) has

  named-Has :
      (name : List ℕ) (cmd : ShellCommand S) (cmds : List (ShellCommand S))
      → are_distinct cmds ≡ true
      → Has cmd cmds
      → same_name name cmd.name ≡ true
      → named name cmds ≡ some cmd
  unfolding named are_distinct
  named-Has name cmd [] distinct has same = absurd has
  named-Has name cmd (c ∷ cmds) distinct (inl e) same =
      let here : same_name name c.name ≡ true = ap (λ x. same_name name x.name) (sym e) ∙ same in
      rw here (ap some (sym e))
  named-Has name cmd (c ∷ cmds) distinct (inr has) same =
      elim (Bool-cases (same_name name c.name)) [
        | inl here ↦
            let other = is_fresh-Has c.name cmd cmds (ground arith) has in
            let equal = sym (same_name_eq name c.name here) ∙ same_name_eq name cmd.name same in
            let own : same_name c.name cmd.name ≡ true =
              ap (λ n. same_name n cmd.name) (sym (same_name_eq name c.name here)) ∙ same in
            cc
        | inr other ↦ rw other (named-Has name cmd cmds (ground arith) has same)
      ]

  named-none :
      (name : List ℕ) (cmds : List (ShellCommand S))
      → ((cmd : ShellCommand S) → Has cmd cmds → same_name name cmd.name ≡ false)
      → named name cmds ≡ none
  unfolding named
  named-none name [] missing = refl
  named-none name (c ∷ cmds) missing =
      rw (missing c (inl refl)) (named-none name cmds (λ cmd has. missing cmd (inr has)))

  found_or_not :
      (libc : Libc S) (name : List ℕ) (cmds : List (ShellCommand S)) (r : Option (ShellCommand S))
      → IsDocumented libc
      → are_distinct cmds ≡ true
      → libc.search name (libc.sort cmds) ≡ r
      → r ≡ named name cmds
  found_or_not libc name cmds none doc distinct e = sym (
      named-none name cmds (λ cmd has.
        doc.misses name (libc.sort cmds) cmd (doc.sorts cmds) e (doc.keeps cmd cmds has)))
  found_or_not libc name cmds (some cmd) doc distinct e =
      let (has, same) = doc.finds name (libc.sort cmds) cmd (doc.sorts cmds) e in
      sym (named-Has name cmd cmds distinct (doc.adds_none cmd cmds has) same)

  -- In an array sorted by `qsort`, `bsearch` finds the command of a name.
  pub search-sort :
      (libc : Libc S) (name : List ℕ) (cmds : List (ShellCommand S))
      → IsDocumented libc
      → are_distinct cmds ≡ true
      → libc.search name (libc.sort cmds) ≡ named name cmds
  search-sort libc name cmds doc distinct = found_or_not libc name cmds _ doc distinct refl
