-- ===== src/Server/Groups/Leave.antt =====
-- `unsubscribe` of src/server/commands.c against the members of the group.
use projeto_rc.Base.{
  ◌≡◌, inl, inr, Bool, true, false, none, some, [], ◌∷◌, arith, Bytes, codes, Option-cases,
  Bool-cases, if◌then◌else◌,
}
use projeto_rc.Base.Outcome.{Outcome, done}
use projeto_rc.Disk.{FilePath, path_eq, dir, file, Disk, lookup, erase, Os}
use projeto_rc.Disk.Laws.{lookup-erase, path_eq_sound}
use projeto_rc.Files.{directory_exists, file_exists, delete_file}
use projeto_rc.Files.Allowed.{IsPermissive, remove_plain}
use projeto_rc.Server.Checks.{check_uid}
use projeto_rc.Server.Paths.{user_path, group_path}
use projeto_rc.Server.Reply.{Answer, udp, uid_gid}
use projeto_rc.Server.Accounts.Spec.{HasAccounts}
use projeto_rc.Server.Accounts.Unregister.{without_member-HasAccounts}
use projeto_rc.Server.Groups.{unsubscribe_from}

-- The reply to an `unsubscribe`, from whether the user and the group exist.
abbrev pub unsubscribe_reply : Bool → Bool → Bytes
unsubscribe_reply false g = codes "RGU E_USR\n"
unsubscribe_reply true false = codes "RGU E_GRP\n"
unsubscribe_reply true true = codes "RGU OK\n"

-- The answer of an `unsubscribe`: one reply, the user no member if both exist, and nothing else
-- changed on the disk.
abbrev pub Leaves : Bytes → Bytes → Disk → Outcome Answer → Type 0
Leaves uid gid fs o =
    (a : Answer) × (o ≡ done a)
    × (a.sent
        ≡ udp (
            unsubscribe_reply (directory_exists (user_path uid) fs)
              (directory_exists (group_path gid) fs))
          ∷ [])
    × ((q : FilePath)
        → lookup a.disk q ≡ (
            if directory_exists (user_path uid) fs
            then (if directory_exists (group_path gid) fs
                then (if path_eq (uid ∷ group_path gid) q then none else lookup fs q)
                else lookup fs q)
            else lookup fs q))
    × HasAccounts a.disk

absent_same :
    (fs : Disk) (p q : FilePath)
    → lookup fs p ≡ none
    → lookup fs q ≡ (if path_eq p q then none else lookup fs q)
absent_same fs p q h = ground (arith, path_eq_sound p q)

module _ (os : Os) (allowed : IsPermissive os) where
  -- Where the system refuses no call, the accounts are in order and the uid is valid,
  -- `unsubscribe` behind its checks sends one reply, RGU E_USR without the user, RGU E_GRP
  -- without the group and RGU OK otherwise; after RGU OK the user has no file in the group, and
  -- nothing else on the disk changes in any case.
  pub unsubscribe_from-Leaves :
      (uid gid : Bytes) (fs : Disk)
      → HasAccounts fs
      → check_uid (some uid) ≡ true
      → Leaves uid gid fs (unsubscribe_from os uid gid fs)
  unfolding unsubscribe_from
  unsubscribe_from-Leaves uid gid fs ok valid =
      elim (Bool-cases (directory_exists (user_path uid) fs)) [
        | inr e ↦ (
          record {
            disk = fs;
            sent = udp (codes "RGU E_USR\n") ∷ [];
            value = some (uid_gid uid gid);
          },
          rw e,
          rw e,
          λ q. rw e,
          ok,
        )
        | inl u ↦ elim (Bool-cases (directory_exists (group_path gid) fs)) [
          | inr e ↦ (
            record {
              disk = fs;
              sent = udp (codes "RGU E_GRP\n") ∷ [];
              value = some (uid_gid uid gid);
            },
            rw (u, e),
            rw (u, e),
            λ q. rw (u, e),
            ok,
          )
          | inl g ↦ elim (Option-cases (lookup fs (uid ∷ group_path gid))) [
            | inl e ↦ (
              record {
                disk = fs;
                sent = udp (codes "RGU OK\n") ∷ [];
                value = some (uid_gid uid gid);
              },
              rw (u, g) (unfold file_exists in rw e),
              rw (u, g),
              λ q. rw (u, g) (absent_same fs (uid ∷ group_path gid) q e),
              ok,
            )
            | inr (dir, e) ↦ absurd (ground (arith, ok.members gid uid dir valid))
            | inr (file b, e) ↦ (
              record {
                disk = erase (uid ∷ group_path gid) fs;
                sent = udp (codes "RGU OK\n") ∷ [];
                value = some (uid_gid uid gid);
              },
              rw (u, g)
                  ((unfold file_exists in
                    unfold delete_file in
                    rw (e, remove_plain os allowed (uid ∷ group_path gid) fs b e))),
              rw (u, g),
              λ q. rw (u, g) (lookup-erase fs (uid ∷ group_path gid) q),
              without_member-HasAccounts uid gid ok valid,
            )
          ]
        ]
      ]
