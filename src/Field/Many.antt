-- ===== src/Field/Many.antt =====
-- The master's bus with any number of slaves on it, each with the main loop of
-- slave/source/main.c.
pub mod Speeds
mod Tests
use ammc.Base.{ℕ, ◌%◌, Option, none, some, List, [], ◌∷◌, ◌==◌, if◌then◌else◌}
use ammc.Bus.{Bus}
use ammc.Slave.Command.{Slave}
use ammc.Field.{deliver, prepared, fetched}

-- A transfer reaches every slave; `none` once one of them has accessed memory past an array.
unfoldable pub deliver_each : {F : Type 0} → List (Slave F) → ℕ → List ℕ → Option (List (Slave F))
deliver_each [] address bytes = some []
deliver_each (s ∷ slaves) address bytes = elim (deliver (some s) address bytes) [
  | none ↦ none
  | some s' ↦ elim (deliver_each slaves address bytes) [
    | none ↦ none
    | some slaves' ↦ some (s' ∷ slaves')
  ]
]

unfoldable pub deliver_all :
    {F : Type 0} → Option (List (Slave F)) → ℕ → List ℕ → Option (List (Slave F))
deliver_all none address bytes = none
deliver_all (some slaves) address bytes = deliver_each slaves address bytes

-- What the first slave at the address has prepared to send.
unfoldable pub prepared_at : {F : Type 0} → List (Slave F) → ℕ → ℕ → List ℕ
prepared_at [] address n = []
prepared_at (s ∷ slaves) address n =
    if address % 128 == s.twi.address then prepared (some s) n else prepared_at slaves address n

unfoldable pub prepared_all : {F : Type 0} → Option (List (Slave F)) → ℕ → ℕ → List ℕ
prepared_all none address n = []
prepared_all (some slaves) address n = prepared_at slaves address n

-- The slaves behind a transfer to the master.
unfoldable pub fetched_each : {F : Type 0} → List (Slave F) → ℕ → ℕ → Option (List (Slave F))
fetched_each [] address n = some []
fetched_each (s ∷ slaves) address n = elim (fetched (some s) address n) [
  | none ↦ none
  | some s' ↦ elim (fetched_each slaves address n) [
    | none ↦ none
    | some slaves' ↦ some (s' ∷ slaves')
  ]
]

unfoldable pub fetched_all :
    {F : Type 0} → Option (List (Slave F)) → ℕ → ℕ → Option (List (Slave F))
fetched_all none address n = none
fetched_all (some slaves) address n = fetched_each slaves address n

abbrev pub slaves_bus : (F : Type 0) → Bus
slaves_bus F = record {
  World = Option (List (Slave F));
  send = deliver_all;
  recv = λ w address n. (prepared_all w address n, fetched_all w address n);
}
