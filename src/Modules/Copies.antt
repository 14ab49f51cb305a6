-- ===== src/Modules/Copies.antt =====
-- What `addToolchainGoMods` of gomodfs.go adds to the files of a Go toolchain.
use gomodfs.Base.{Bytes, codes, List, [], ◌∷◌, ◌++◌, ◌≡◌, ◌⊎◌}
use mathlib.Core.List.{Mem}
use gomodfs.Text.{slash}
use gomodfs.Modules.{PutFile}
use gomodfs.Modules.Files.{renamed}

-- the top of a module, or a directory in it, with its final slash
abbrev pub IsDirectory : Bytes → Type 0
IsDirectory dir = (dir ≡ []) ⊎ ((above : Bytes) × (dir ≡ above ++ slash ∷ []))

-- a copy "go.mod" of a file "_go.mod" of `files`, beside it
abbrev pub IsCopy : List PutFile → PutFile → Type 0
IsCopy files g =
    (f : PutFile) × (dir : Bytes) × Mem f files
    × IsDirectory dir
    × (f.path ≡ dir ++ codes "_go.mod")
    × (g ≡ renamed f (dir ++ codes "go.mod"))
