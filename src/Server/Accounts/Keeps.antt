-- ===== src/Server/Accounts/Keeps.antt =====
-- Changes of the disk by the account commands, and the order of the accounts.
use projeto_rc.Base.{
  ◌≡◌, refl, sym, ◌∙◌, ◌⊎◌, inl, inr, true, false, none, some, ◌∷◌, arith, Bytes, text_eq,
  text_eq_sound, Option-cases, Bool-cases, if◌then◌else◌,
}
use projeto_rc.Disk.{FilePath, path_eq, Node, dir, file, Disk, lookup, put, is_dir}
use projeto_rc.Disk.Laws.{lookup-put, lookup-put_self}
use projeto_rc.Files.{is_hidden}
use projeto_rc.Files.Flat.{IsPlain}
use projeto_rc.Files.Laws.{IsTree, put-IsTree, child_none}
use projeto_rc.Server.Checks.{check_pass}
use projeto_rc.Server.Paths.{user_path, users_path, group_path, pass_txt}
use projeto_rc.Server.Paths.Apart.{
  user_file-user_dir, user_dir-user_file, user_file-group_file, user_dir-group_file,
}
use projeto_rc.Server.Accounts.Spec.{HasAccounts}

-- Removals that take no password file from a user who stays.
pub shrink-HasAccounts :
    {fs fs' : Disk}
    → HasAccounts fs
    → IsTree fs'
    → ((q : FilePath) → (lookup fs' q ≡ lookup fs q) ⊎ (lookup fs' q ≡ none))
    → lookup fs' users_path ≡ lookup fs users_path
    → ((u : Bytes)
        → lookup fs' (user_path u) ≡ some dir
        → lookup fs' (pass_txt ∷ user_path u) ≡ lookup fs (pass_txt ∷ user_path u))
    → HasAccounts fs'
shrink-HasAccounts {fs} {fs'} ok t less top kept = record {
  tree = t;
  users = top ∙ ok.users;
  user_dir = λ u x e. ground (arith, less (user_path u), ok.user_dir u x);
  has_pass = λ u e.
      let (b, h, valid) = ok.has_pass u (ground (arith, less (user_path u))) in
      (b, kept u e ∙ h, valid);
  plain = λ u n x e. ground (arith, less (n ∷ user_path u), ok.plain u n x);
  members = λ g u x c e. ground (arith, less (u ∷ group_path g), ok.members g u x c);
}

pub user_file_not_dir :
    {fs : Disk} (n uid : Bytes) → HasAccounts fs → is_dir (lookup fs (n ∷ user_path uid)) ≡ false
user_file_not_dir {fs} n uid ok = elim (Option-cases (lookup fs (n ∷ user_path uid))) [
  | inl e ↦ rw e
  | inr (x, e) ↦ rw e (ok.plain uid n x e).1
]

abbrev AllPlain : Disk → Type 0
AllPlain fs = (u m : Bytes) (x : Node) → lookup fs (m ∷ user_path u) ≡ some x → IsPlain m x

put-plain :
    (n uid b : Bytes) (fs : Disk)
    → AllPlain fs
    → is_hidden n ≡ false
    → AllPlain (put (n ∷ user_path uid) (file b) fs)
put-plain n uid b fs plain shown u m x e = ground (
  arith,
  lookup-put fs (n ∷ user_path uid) (m ∷ user_path u) (file b),
  plain u m x,
  text_eq_sound n m,
)

-- A file that is written into the directory of a user.
pub put_file-HasAccounts :
    {fs : Disk} (n uid b : Bytes)
    → HasAccounts fs
    → lookup fs (user_path uid) ≡ some dir
    → is_hidden n ≡ false
    → text_eq n pass_txt ≡ false
    → HasAccounts (put (n ∷ user_path uid) (file b) fs)
put_file-HasAccounts {fs} n uid b ok up shown other =
    let found = λ (q : FilePath). lookup-put fs (n ∷ user_path uid) q (file b) in
    record {
      tree = put-IsTree n (user_path uid) (file b) ok.tree up (inr (user_file_not_dir n uid ok));
      users = ground (arith, found users_path, ok.users);
      user_dir = λ u x e. ground (arith, found (user_path u), ok.user_dir u x);
      has_pass = λ u e.
          let (t, h, valid) = ok.has_pass u (ground (arith, found (user_path u))) in
          (t, ground (arith, found (pass_txt ∷ user_path u)), valid);
      plain = put-plain n uid b fs ok.plain shown;
      members = λ g u x c e. ground (arith, found (u ∷ group_path g), ok.members g u x c);
    }

abbrev pub with_dir : Bytes → Disk → Disk
with_dir uid fs = put (user_path uid) dir fs

abbrev pub with_user : Bytes → Bytes → Disk → Disk
with_user uid pass fs = put (pass_txt ∷ user_path uid) (file pass) (with_dir uid fs)

module _ {fs : Disk} (uid pass : Bytes) (ok : HasAccounts fs)
    (free : lookup fs (user_path uid) ≡ none) where
  with_dir-IsTree : IsTree (with_dir uid fs)
  with_dir-IsTree = put-IsTree uid users_path dir ok.tree ok.users (inl refl)

  pub no_pass : is_dir (lookup (with_dir uid fs) (pass_txt ∷ user_path uid)) ≡ false
  no_pass = ground (
    arith,
    lookup-put fs (user_path uid) (pass_txt ∷ user_path uid) dir,
    child_none (user_path uid) pass_txt ok.tree,
  )

  -- What the new disk holds, path by path.
  pub lookup-with_user :
      (q : FilePath)
      → lookup (with_user uid pass fs) q ≡ (
          if path_eq (pass_txt ∷ user_path uid) q
          then some (file pass)
          else if path_eq (user_path uid) q
          then some dir
          else lookup fs q)
  lookup-with_user q = ground (
    arith,
    lookup-put (with_dir uid fs) (pass_txt ∷ user_path uid) q (file pass),
    lookup-put fs (user_path uid) q dir,
  )

  pub lookup-with_user_dir :
      (u : Bytes)
      → lookup (with_user uid pass fs) (user_path u)
        ≡ (if text_eq uid u then some dir else lookup fs (user_path u))
  lookup-with_user_dir u =
      rw (lookup-with_user (user_path u), user_file-user_dir pass_txt uid u) (ground arith)

  pub lookup-with_user_pass :
      (u : Bytes)
      → lookup (with_user uid pass fs) (pass_txt ∷ user_path u)
        ≡ (if text_eq uid u then some (file pass) else lookup fs (pass_txt ∷ user_path u))
  lookup-with_user_pass u =
      rw (lookup-with_user (pass_txt ∷ user_path u), user_dir-user_file uid pass_txt u)
        (ground arith)

  lookup-with_user_group :
      (n g : Bytes)
      → lookup (with_user uid pass fs) (n ∷ group_path g) ≡ lookup fs (n ∷ group_path g)
  lookup-with_user_group n g = rw (
    lookup-with_user (n ∷ group_path g),
    user_file-group_file pass_txt uid n g,
    user_dir-group_file uid n g,
  )

  plain_with_dir : AllPlain (with_dir uid fs)
  plain_with_dir u m x e =
      ok.plain u m x (ground (arith, lookup-put fs (user_path uid) (m ∷ user_path u) dir))

  -- A user directory with its password file.
  pub new_user-HasAccounts : check_pass (some pass) ≡ true → HasAccounts (with_user uid pass fs)
  new_user-HasAccounts valid = record {
    tree =
        put-IsTree pass_txt (user_path uid) (file pass) with_dir-IsTree
          (lookup-put_self fs (user_path uid) dir) (inr no_pass);
    users = ground (arith, lookup-with_user users_path, ok.users);
    user_dir = λ u x e. ground (arith, lookup-with_user_dir u, ok.user_dir u x);
    has_pass = λ u e. elim (Bool-cases (text_eq uid u)) [
      | inl same ↦ (pass, ground (arith, lookup-with_user_pass u), valid)
      | inr other ↦
          let (t, h, v) = ok.has_pass u (ground (arith, lookup-with_user_dir u)) in
          (t, ground (arith, lookup-with_user_pass u), v)
    ];
    plain = put-plain pass_txt uid pass (with_dir uid fs) plain_with_dir refl;
    members = λ g u x c e. ok.members g u x c (sym (lookup-with_user_group u g) ∙ e);
  }
