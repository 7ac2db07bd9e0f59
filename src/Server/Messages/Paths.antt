-- ===== src/Server/Messages/Paths.antt =====
-- Where `post` stores the file of a message.
use mathlib.Core.List.{append-nil}
use projeto_rc.Base.{
  ◌≡◌, ◌∙◌, false, some, [], ◌∷◌, ◌++◌, arith, Bytes, codes, ◌==◌, text_eq, All, append_assoc,
}
use projeto_rc.Disk.{FilePath, Disk}
use projeto_rc.Server.Messages.{walk, step_path, slash, resolve}

-- The name of a file, and no path.
abbrev pub IsFileName : Bytes → Type 0
IsFileName name =
    All (λ c. (c == slash) ≡ false) name
    × (text_eq name [] ≡ false)
    × (text_eq name (codes ".") ≡ false)
    × (text_eq name (codes "..") ≡ false)

walk_lem :
    (fs : Disk) (p : FilePath) (part s : Bytes)
    → All (λ c. (c == slash) ≡ false) s
    → walk fs p part s ≡ some (step_path p (part ++ s))
unfolding walk
walk_lem fs p part [] h = rw (append-nil part)
walk_lem fs p part (c ∷ s) h = rw h.0 (rw append_assoc at (walk_lem fs p (part ++ c ∷ []) s h.1))

-- A file name leads to the file of that name in the directory.
pub resolve-IsFileName :
    (fs : Disk) (p : FilePath) (name : Bytes)
    → IsFileName name
    → resolve fs p name ≡ some (name ∷ p)
unfolding resolve
resolve-IsFileName fs p name (plain, a, b, c) = walk_lem fs p [] name plain ∙ (ground arith)
