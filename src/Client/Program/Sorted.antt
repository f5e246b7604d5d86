-- ===== src/Client/Program/Sorted.antt =====
-- The array of the commands of a new shell.
use ammc.Base.{ℕ, true, ◌≡◌, List}
use ammc.Client.Shell.{ShellCommand, Libc}
use ammc.Client.Shell.Arrays.{IsDocumented, are_sorted, are_distinct, named, search-sort}
use ammc.Client.Program.Table.{shell_new}

-- With `qsort` and `bsearch` as they are documented, and commands of which no two have the same
-- name: the array of commands of a new shell is sorted by name, and the search of it for a name
-- gives the command of that name in the table that the shell was made from, or none if there is none.
pub shell_new-named :
    {S : Type 0} (libc : Libc S) (cmds : List (ShellCommand S)) (storage : S) (name : List ℕ)
    → IsDocumented libc
    → are_distinct cmds ≡ true
    → let sh = shell_new libc cmds storage in
      (are_sorted sh.commands ≡ true) × (sh.libc.search name sh.commands ≡ named name cmds)
unfolding shell_new
shell_new-named libc cmds storage name doc distinct =
    (doc.sorts cmds, search-sort libc name cmds doc distinct)
