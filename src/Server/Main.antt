-- ===== src/Server/Main.antt =====
-- `main` of src/server/server.c up to its loop, with the sockets of src/server/connection.c. What the
-- calls on sockets return is a parameter.
use projeto_rc.Base.{
  ℕ, ◌+◌, ◌<◌, ◌≤◌, ◌≡◌, refl, Bool, true, Option, none, some, List, [], Bytes, codes, ltb, ap,
  arith, Bool-cases, inl, inr, if◌then◌else◌,
}
use mathlib.Core.Path.{subst}
use projeto_rc.Base.Outcome.{Outcome, done, ◌>>=◌, >>=-eq-done, done_injective}
use projeto_rc.Server.Paths.{server_path, users_path, groups_path}
use projeto_rc.Disk.{FilePath, dir, Disk, lookup, is_dir, Os, mkdir}
use projeto_rc.Files.{create_filesystem, create_directory, directory_exists}
use projeto_rc.Files.Laws.{IsTree, mkdir-IsTree}
use projeto_rc.Server.Args.{parse_args}
use projeto_rc.Server.Reply.{Message}
use projeto_rc.Server.Loop.{Machine, Reach}
use projeto_rc.Server.Loop.Kept.{Reach-IsTree}
use projeto_rc.Server.Loop.Owners.{owners}
use projeto_rc.Server.Loop.Apart.{owners_lem}
use projeto_rc.Server.Loop.Lasting.{message_path}

pub data Kind : Type 0 where
  udp_socket tcp_socket : Kind

-- What `socket` gives (`none` is -1), and whether `getaddrinfo` for a port, `bind`, `listen` and
-- `sigaction` succeed.
pub record Net : Type 0 where
  pub socket : Kind → Option ℕ
  pub getaddrinfo : Kind → Bytes → Bool
  pub bind : Kind → Bytes → Bool
  pub listen : Bool
  -- of `SIGCHLD`
  pub sigaction : Bool

-- The descriptor; FERROR with the line that it prints; or `exit(1)`.
pub data Init : Type 0 where
  opened : ℕ → Init
  ferror : Bytes → Init
  exit_one : Init

-- Each line is an ASSERT: the first call that fails is the one that is told.
unfoldable pub init_udp : Net → Bytes → Init
init_udp net port = elim (net.socket udp_socket) [
  | none ↦ exit_one
  | some fd ↦
      if net.getaddrinfo udp_socket port
      then if net.bind udp_socket port then opened fd else ferror (codes "Unable to bind")
      else ferror (codes "Unable to get info")
]

unfoldable pub init_tcp : Net → Bytes → Init
init_tcp net port = elim (net.socket tcp_socket) [
  | none ↦ exit_one
  | some fd ↦
      if net.getaddrinfo tcp_socket port
      then if net.bind tcp_socket port
        then if net.listen then opened fd else ferror (codes "Listen failed")
        else ferror (codes "Unable to bind")
      else ferror (codes "Unable to get address info")
]

unfoldable pub max : ℕ → ℕ → ℕ
max x y = if ltb y x then x else y

-- `main` in front of its loop: the descriptors, the first argument of `select`, the path of the server's
-- directory, and the loop's state.
pub record Started : Type 0 where
  pub udp_fd : ℕ
  pub tcp_fd : ℕ
  pub maxfd1 : ℕ
  pub verbose : Bool
  pub fs : FilePath
  pub machine : Machine

-- Or it has ended with a status.
pub data Start : Type 0 where
  started : Started → Start
  exited : ℕ → Start

abbrev with_filesystem : ℕ → ℕ → Bool → Option (FilePath × Disk) → Start
with_filesystem udp_fd tcp_fd verbose none = exited 1
with_filesystem udp_fd tcp_fd verbose (some (path, disk)) = started (record {
  udp_fd = udp_fd;
  tcp_fd = tcp_fd;
  maxfd1 = max tcp_fd udp_fd + 1;
  verbose = verbose;
  fs = path;
  machine = record { disk = disk; buffer = []; tasks = []; running = true };
})

abbrev with_tcp : Os → ℕ → Bool → Disk → Init → Start
with_tcp os udp_fd verbose disk (opened tcp_fd) =
    with_filesystem udp_fd tcp_fd verbose (create_filesystem os [] disk)
with_tcp os udp_fd verbose disk (ferror line) = exited 0
with_tcp os udp_fd verbose disk exit_one = exited 1

abbrev with_udp : Net → Os → Bytes → Bool → Disk → Init → Start
with_udp net os port verbose disk (opened udp_fd) =
    with_tcp os udp_fd verbose disk (init_tcp net port)
with_udp net os port verbose disk (ferror line) = exited 0
with_udp net os port verbose disk exit_one = exited 1

-- The descriptors are opened before the disk is touched. FERROR ends the program with status 0.
unfoldable pub start_main : Net → Os → List Bytes → Disk → Outcome Start
unfolding parse_args init_udp init_tcp create_filesystem max
start_main net os args disk =
    if net.sigaction
    then (do
      (port, verbose) ← parse_args args
      done (with_udp net os port verbose disk (init_udp net port)))
    else done (exited 1)

max_bounds : (x y : ℕ) → (x ≤ max x y) × (y ≤ max x y)
unfolding max
max_bounds x y = (ground arith, ground arith)

abbrev disk_of : Option (FilePath × Disk) → Disk
disk_of none = []
disk_of (some (path, disk)) = disk

-- A call that did not fail.
call_made :
    {A B : Type 0} (o : Option A) (next : A → Option B) {b : B}
    → (elim o as (λ _. Option B) [ none ↦ none | some a ↦ next a ]) ≡ some b
    → (a : A) × (o ≡ some a) × (next a ≡ some b)
call_made none next e = absurd (ground arith)
call_made (some a) next e = (a, refl, e)

some_disk :
    (x y : FilePath × Disk)
    → ◌≡◌ {A = Option (FilePath × Disk)} (some x) (some y)
    → IsTree x.1
    → IsTree y.1
some_disk x y e t = subst IsTree (ap disk_of e) t

create_filesystem-IsTree :
    (os : Os) (disk : Disk) {path : FilePath} {disk' : Disk}
    → create_filesystem os [] disk ≡ some (path, disk')
    → IsTree disk
    → IsTree disk'
unfolding create_filesystem directory_exists create_directory
create_filesystem-IsTree os disk h t = elim (Bool-cases (is_dir (lookup disk server_path))) [
  | inl e ↦ some_disk (server_path, disk) _ (rw (e, create_filesystem) at h) t
  | inr e ↦
      let (fs1, a, h1) = call_made (mkdir os server_path disk) _ (rw (e, create_filesystem) at h) in
      let (fs2, b, h2) = call_made (mkdir os users_path fs1) _ h1 in
      let (fs3, c, h3) = call_made (mkdir os groups_path fs2) _ h2 in
      some_disk (server_path, fs3) _ h3
        (mkdir-IsTree os groups_path fs2 c
          (mkdir-IsTree os users_path fs1 b (mkdir-IsTree os server_path disk a t)))
]

-- What `main` has when it comes to its loop.
record IsReady (os : Os) (s : Started) : Type 0 where
  udp_below : s.udp_fd < s.maxfd1
  tcp_below : s.tcp_fd < s.maxfd1
  tree : IsTree s.machine.disk
  alone : s.machine.tasks ≡ []

abbrev started_of : Started → Start → Started
started_of s (started t) = t
started_of s (exited n) = s

with_filesystem-IsReady :
    (os : Os) (udp_fd tcp_fd : ℕ) (verbose : Bool) (disk : Disk) (o : Option (FilePath × Disk))
    (s : Started)
    → ((path : FilePath) (disk' : Disk) → o ≡ some (path, disk') → IsTree disk')
    → with_filesystem udp_fd tcp_fd verbose o ≡ started s
    → IsReady os s
with_filesystem-IsReady os udp_fd tcp_fd verbose disk none s trees h = absurd (ground arith)
with_filesystem-IsReady os udp_fd tcp_fd verbose disk (some (path, disk')) s trees h =
    let ready_now : IsReady os
        (started_of s (with_filesystem udp_fd tcp_fd verbose (some (path, disk')))) =
      record {
        udp_below = omega (arith, max_bounds tcp_fd udp_fd);
        tcp_below = omega (arith, max_bounds tcp_fd udp_fd);
        tree = trees path disk' refl;
        alone = refl;
      } in
    subst (λ x. IsReady os (started_of s x)) h ready_now

with_udp-IsReady :
    (net : Net) (os : Os) (port : Bytes) (verbose : Bool) (disk : Disk) (u : Init) (s : Started)
    → IsTree disk
    → with_udp net os port verbose disk u ≡ started s
    → IsReady os s
with_udp-IsReady net os port verbose disk exit_one s t h = absurd (ground arith)
with_udp-IsReady net os port verbose disk (ferror line) s t h = absurd (ground arith)
with_udp-IsReady net os port verbose disk (opened udp_fd) s t h =
    with_tcp-IsReady (init_tcp net port) h
  where
    with_tcp-IsReady : (i : Init) → with_tcp os udp_fd verbose disk i ≡ started s → IsReady os s
    with_tcp-IsReady exit_one h = absurd (ground arith)
    with_tcp-IsReady (ferror line) h = absurd (ground arith)
    with_tcp-IsReady (opened tcp_fd) h =
        with_filesystem-IsReady os udp_fd tcp_fd verbose disk _ s
          (λ path disk' e. create_filesystem-IsTree os disk e t) h

-- Whatever the system refuses, a start of the server's `main` on a disk that is a tree, if it
-- comes to its loop, has its two descriptors below the first argument of `select`; and in every
-- machine that the loop and the child processes reach from there, in whatever order they take
-- their steps, the disk is a tree, and at most one process is between the steps that make the
-- directory of a given number in a given group for its message and that write its files, and that
-- directory is there.
pub start_main-Reach :
    (net : Net) (os : Os) (args : List Bytes) (disk : Disk) (s : Started) (gid id : Bytes)
    {n : Machine} {sent : List Message}
    → IsTree disk
    → start_main net os args disk ≡ done (started s)
    → Reach os s.machine sent n
    → (s.udp_fd < s.maxfd1)
      × (s.tcp_fd < s.maxfd1)
      × IsTree n.disk
      × (owners gid id n.tasks ≤ 1)
      × (1 ≤ owners gid id n.tasks → lookup n.disk (message_path gid id) ≡ some dir)
unfolding start_main
start_main-Reach net os args disk s gid id t h r =
    let handled : net.sigaction ≡ true = elim (Bool-cases net.sigaction) [
      | inl e ↦ e
      | inr e ↦ absurd (let bad : done (exited 1) ≡ done (started s) = rw e at h in ground arith)
    ] in
    let ((port, verbose), _, k) = >>=-eq-done (parse_args args) _ (rw handled at h) in
    let ok : IsReady os s =
      with_udp-IsReady net os port verbose disk (init_udp net port) s t (done_injective k) in
    let (one, there) = owners_lem os gid id r ok.tree ok.alone in
    (ok.udp_below, ok.tcp_below, Reach-IsTree os r ok.tree, one, there)
