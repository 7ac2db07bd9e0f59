-- ===== src/Server/Loop/Apart.antt =====
-- Child processes of src/server/server.c that `post` at the same time write in different directories.
use projeto_rc.Base.{◌+◌, ◌≤◌, ◌<◌, ◌≡◌, ap, inl, inr, some, List, [], ◌∷◌, ◌++◌, Bytes, arith}
use projeto_rc.Base.Outcome.{Ensures-done}
use projeto_rc.Disk.{dir, lookup, Os}
use projeto_rc.Files.Laws.{IsTree}
use projeto_rc.Server.Reply.{Message}
use projeto_rc.Server.Loop.{
  Task, Progress, Machine, round, still, Step, main, child, Reach, here, next,
}
use projeto_rc.Server.Loop.Kept.{Reach-IsTree}
use projeto_rc.Server.Loop.Lasting.{message_path, message_path-lasts}
use projeto_rc.Server.Loop.Owners.{
  owns, owners, owners-append, TakesUp, advance-TakesUp, still_forked,
}

module _ (gid id : Bytes) where
  module _ (os : Os) where
    -- The directory of a message is taken by one process at most, and it is there.
    abbrev pub IsTaken : Machine → Type 0
    IsTaken m =
        (owners gid id m.tasks ≤ 1)
        × (1 ≤ owners gid id m.tasks → lookup m.disk (message_path gid id) ≡ some dir)

    replaced :
        (before after : List Task) (t : Task) (r : Progress)
        → (owners gid id (before ++ t ∷ after)
            ≡ owners gid id before + (owns gid id t + owners gid id after))
          × (owners gid id (before ++ (still os r.task ++ after))
              ≡ owners gid id before + (owners gid id (still os r.task) + owners gid id after))
    replaced before after t r = (
      owners-append gid id before (t ∷ after),
      omega (
        arith,
        owners-append gid id before (still os r.task ++ after),
        owners-append gid id (still os r.task) after,
      ),
    )

    Step-IsTaken :
        {m n : Machine} {sent : List Message}
        → Step os m sent n
        → IsTree m.disk
        → IsTaken m
        → IsTaken n
    unfolding round
    Step-IsTaken {m} {n} (main r on e) t (one, there) =
        let same : owners gid id n.tasks ≡ owners gid id m.tasks =
          Ensures-done (λ r. owners gid id r.0.tasks ≡ owners gid id m.tasks) _ e
            (still_forked gid id os r.udp_set r.tcp_set m) in
        (
          omega arith,
          λ k. message_path-lasts os gid id (next (main r on e) here) t (there (omega arith)),
        )
    Step-IsTaken {m} (child before u after p at e) t (one, there) =
        let (old, new) = replaced before after u p in
        let sum : owners gid id m.tasks ≡ owners gid id (before ++ u ∷ after) =
          ap (owners gid id) at in
        elim (Ensures-done (TakesUp gid id os u m.disk) _ e (advance-TakesUp gid id os u m.disk)) [
          | inl less ↦ (
            omega arith,
            λ k.
                message_path-lasts os gid id (next (child {m = m} before u after p at e) here) t
                  (there (omega arith)),
          )
          | inr (free, held, few) ↦
              let none_yet : owners gid id m.tasks < 1 = ground (arith, there) in
              (omega arith, λ k. held)
        ]

    pub Reach-IsTaken :
        {m n : Machine} {sent : List Message}
        → Reach os m sent n
        → IsTree m.disk
        → IsTaken m
        → IsTaken n
    Reach-IsTaken here t h = h
    Reach-IsTaken (next s r) t h =
        Reach-IsTaken r (Reach-IsTree os (next s here) t) (Step-IsTaken s t h)

-- Whatever the system refuses and in whatever order the processes take their steps, from a disk that
-- is a tree and a server without child processes, at most one of them is ever between making the
-- directory of a number in a group and writing the files of its message, and the directory is there.
pub owners_lem :
    (os : Os) (gid id : Bytes) {m n : Machine} {sent : List Message}
    → Reach os m sent n
    → IsTree m.disk
    → m.tasks ≡ []
    → (owners gid id n.tasks ≤ 1)
      × (1 ≤ owners gid id n.tasks → lookup n.disk (message_path gid id) ≡ some dir)
owners_lem os gid id {m} r t none_yet =
    let bare : owners gid id m.tasks ≡ 0 = ap (owners gid id) none_yet in
    Reach-IsTaken gid id os r t (omega arith, λ k. absurd (omega arith))
