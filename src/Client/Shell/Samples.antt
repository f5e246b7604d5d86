-- ===== src/Client/Shell/Samples.antt =====
-- A library for the tests and the examples: it sorts by insertion and searches from the front.
use ammc.Base.{
  ℕ, true, false, ◌≡◌, ◌∙◌, refl, sym, ap, none, some, List, [], ◌∷◌, if◌then◌else◌, inl, inr,
  Bool-cases, arith,
}
use ammc.Client.Shell.{ShellCommand, Libc, same_name, name_before}
use ammc.Client.Shell.Arrays.{Has, IsDocumented, are_sorted, named}

name_before_asym : (a b : List ℕ) → name_before a b ≡ true → name_before b a ≡ false
unfolding name_before
name_before_asym [] [] before = ground arith
name_before_asym [] (d ∷ ds) before = refl
name_before_asym (c ∷ cs) [] before = ground arith
name_before_asym (c ∷ cs) (d ∷ ds) before = elim (Bool-cases (name_before cs ds)) [
  | inl e ↦ ground (arith, name_before_asym cs ds e)
  | inr e ↦ ground arith
]

unfoldable pub insert_command :
    {S : Type 0} → ShellCommand S → List (ShellCommand S) → List (ShellCommand S)
insert_command cmd [] = cmd ∷ []
insert_command cmd (next ∷ cmds) =
    let behind = insert_command cmd cmds in
    if name_before next.name cmd.name then next ∷ behind else cmd ∷ next ∷ cmds

unfoldable pub sort_commands : {S : Type 0} → List (ShellCommand S) → List (ShellCommand S)
sort_commands [] = []
sort_commands (cmd ∷ cmds) = insert_command cmd (sort_commands cmds)

module _ {S : Type 0} where
  sorted-insert_behind :
      (a cmd : ShellCommand S) (cmds : List (ShellCommand S))
      → name_before cmd.name a.name ≡ false
      → are_sorted (a ∷ cmds) ≡ true
      → are_sorted (a ∷ insert_command cmd cmds) ≡ true
  unfolding are_sorted insert_command
  sorted-insert_behind a cmd [] behind sorted = rw behind refl
  sorted-insert_behind a cmd (b ∷ cmds) behind sorted =
      elim (Bool-cases (name_before b.name cmd.name)) [
        | inl e ↦
            rw e
              (ground (arith, sorted-insert_behind b cmd cmds (name_before_asym b.name cmd.name e)))
        | inr e ↦ rw e (ground arith)
      ]

  sorted-insert :
      (cmd : ShellCommand S) (cmds : List (ShellCommand S))
      → are_sorted cmds ≡ true
      → are_sorted (insert_command cmd cmds) ≡ true
  unfolding are_sorted insert_command
  sorted-insert cmd [] sorted = refl
  sorted-insert cmd (b ∷ cmds) sorted = elim (Bool-cases (name_before b.name cmd.name)) [
    | inl e ↦ rw e (sorted-insert_behind b cmd cmds (name_before_asym b.name cmd.name e) sorted)
    | inr e ↦ rw e (ground arith)
  ]

  sort_commands-sorted : (cmds : List (ShellCommand S)) → are_sorted (sort_commands cmds) ≡ true
  unfolding are_sorted sort_commands
  sort_commands-sorted [] = refl
  sort_commands-sorted (cmd ∷ cmds) =
      sorted-insert cmd (sort_commands cmds) (sort_commands-sorted cmds)

  insert_keeps :
      (c cmd : ShellCommand S) (cmds : List (ShellCommand S))
      → Has c (cmd ∷ cmds)
      → Has c (insert_command cmd cmds)
  unfolding insert_command
  insert_keeps c cmd [] has = has
  insert_keeps c cmd (b ∷ cmds) (inl e) = elim (Bool-cases (name_before b.name cmd.name)) [
    | inl before ↦ rw before (inr (insert_keeps c cmd cmds (inl e)))
    | inr behind ↦ rw behind (inl e)
  ]
  insert_keeps c cmd (b ∷ cmds) (inr (inl e)) = elim (Bool-cases (name_before b.name cmd.name)) [
    | inl before ↦ rw before (inl e)
    | inr behind ↦ rw behind (inr (inl e))
  ]
  insert_keeps c cmd (b ∷ cmds) (inr (inr has)) = elim (Bool-cases (name_before b.name cmd.name)) [
    | inl before ↦ rw before (inr (insert_keeps c cmd cmds (inr has)))
    | inr behind ↦ rw behind (inr (inr has))
  ]

  swapped :
      (c cmd b : ShellCommand S) (cmds : List (ShellCommand S))
      → Has c (cmd ∷ cmds)
      → Has c (cmd ∷ b ∷ cmds)
  swapped c cmd b cmds (inl e) = inl e
  swapped c cmd b cmds (inr has) = inr (inr has)

  insert_adds_none :
      (c cmd : ShellCommand S) (cmds : List (ShellCommand S))
      → Has c (insert_command cmd cmds)
      → Has c (cmd ∷ cmds)
  unfolding insert_command
  insert_adds_none c cmd [] has = has
  insert_adds_none c cmd (b ∷ cmds) has = added (insert_adds_none c cmd cmds) has
    where
      added :
          (Has c (insert_command cmd cmds) → Has c (cmd ∷ cmds))
          → Has c
              (if name_before b.name cmd.name then b ∷ insert_command cmd cmds else cmd ∷ b ∷ cmds)
          → Has c (cmd ∷ b ∷ cmds)
      added shorter = elim (Bool-cases (name_before b.name cmd.name)) [
        | inl before ↦ rw before (λ has. elim has [
          | inl e ↦ inr (inl e)
          | inr more ↦ swapped c cmd b cmds (shorter more)
        ])
        | inr behind ↦ rw behind (λ has. has)
      ]

  sort_keeps :
      (c : ShellCommand S) (cmds : List (ShellCommand S)) → Has c cmds → Has c (sort_commands cmds)
  unfolding sort_commands
  sort_keeps c [] has = has
  sort_keeps c (cmd ∷ cmds) (inl e) = insert_keeps c cmd (sort_commands cmds) (inl e)
  sort_keeps c (cmd ∷ cmds) (inr has) =
      insert_keeps c cmd (sort_commands cmds) (inr (sort_keeps c cmds has))

  sort_adds_none :
      (c : ShellCommand S) (cmds : List (ShellCommand S)) → Has c (sort_commands cmds) → Has c cmds
  unfolding sort_commands
  sort_adds_none c [] has = has
  sort_adds_none c (cmd ∷ cmds) has = elim (insert_adds_none c cmd (sort_commands cmds) has) [
    | inl e ↦ inl e
    | inr more ↦ inr (sort_adds_none c cmds more)
  ]

  named_finds :
      (name : List ℕ) (cmds : List (ShellCommand S)) (cmd : ShellCommand S)
      → named name cmds ≡ some cmd
      → Has cmd cmds × (same_name name cmd.name ≡ true)
  unfolding named
  named_finds name [] cmd e = cc
  named_finds name (c ∷ cmds) cmd e = found (named_finds name cmds cmd) e
    where
      found :
          (named name cmds ≡ some cmd → Has cmd cmds × (same_name name cmd.name ≡ true))
          → (if same_name name c.name then some c else named name cmds) ≡ some cmd
          → Has cmd (c ∷ cmds) × (same_name name cmd.name ≡ true)
      found shorter = elim (Bool-cases (same_name name c.name)) [
        | inl same ↦ rw same (λ e.
            let own : c ≡ cmd = cc in
            (inl (sym own), ap (λ x. same_name name x.name) (sym own) ∙ same))
        | inr other ↦ rw other (λ e. let (has, same) = shorter e in (inr has, same))
      ]

  named_misses :
      (name : List ℕ) (cmds : List (ShellCommand S)) (cmd : ShellCommand S)
      → named name cmds ≡ none
      → Has cmd cmds
      → same_name name cmd.name ≡ false
  unfolding named
  named_misses name [] cmd e has = absurd has
  named_misses name (c ∷ cmds) cmd e (inl own) = elim (Bool-cases (same_name name c.name)) [
    | inl same ↦ absurd (missed same e)
    | inr other ↦ ap (λ x. same_name name x.name) own ∙ other
  ]
    where
      missed :
          same_name name c.name ≡ true
          → (if same_name name c.name then some c else named name cmds) ≡ none
          → ⊥
      missed same = rw same (λ e. cc)
  named_misses name (c ∷ cmds) cmd e (inr has) = named_misses name cmds cmd (behind e) has
    where
      behind :
          (if same_name name c.name then some c else named name cmds) ≡ none
          → named name cmds ≡ none
      behind = elim (Bool-cases (same_name name c.name)) [
        | inl same ↦ rw same (λ e. cc)
        | inr other ↦ rw other (λ e. e)
      ]

abbrev pub simple_libc : (S : Type 0) → Libc S
simple_libc S = record { sort = sort_commands; search = named }

pub simple-IsDocumented : {S : Type 0} → IsDocumented (simple_libc S)
simple-IsDocumented = record {
  sorts = sort_commands-sorted;
  keeps = sort_keeps;
  adds_none = sort_adds_none;
  finds = λ name cmds cmd sorted e. named_finds name cmds cmd e;
  misses = λ name cmds cmd sorted e has. named_misses name cmds cmd e has;
}
