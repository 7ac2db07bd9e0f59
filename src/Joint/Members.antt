-- ===== src/Joint/Members.antt =====
-- The user's program and the server at work on a server with one user, and on one with
-- a group.
use projeto_rc.Base.{◌≡◌, refl, true, some, [], ◌∷◌, codes, map, arith}
use projeto_rc.Server.Groups.Create.{with_group-HasAccounts}
use projeto_rc.Server.Examples.{
  plain_os, plain_os-IsPermissive, one_user-HasAccounts, uid, one_user,
}
use projeto_rc.Server.Requests.{
  gid, gname, one_group, groups_dir, group_free, one_group-HasGroup, user_still, user_there, room,
  new_free,
}
use projeto_rc.Server.Dispatch.{Server}
use projeto_rc.User.Checks as UserChecks
use projeto_rc.User.Groups.{subscribe_to, unsubscribe_from, list_groups}
use projeto_rc.User.Examples.{friendly, member, member-IsSession, member_logged}
use projeto_rc.Joint.{exchange}
use projeto_rc.Joint.Joining.{Asks, Enrols, subscribe_to-Enrols}
use projeto_rc.Joint.Founding.{HasRoom, Founds, subscribe_to-Founds}
use projeto_rc.Server.Groups.{new_gid}
use projeto_rc.Joint.Leaving.{Departs, unsubscribe_from-Departs}
use projeto_rc.Base.Decimal.{print_padded}
use projeto_rc.Base.Outcome.{done}
use projeto_rc.Disk.{lookup, put, readdir, entries}
use projeto_rc.Files.{list_subdirectories, list_subdirectories_ord}
use projeto_rc.Sll.{items, sll_append_ord, sll_size}
use projeto_rc.Server.Checks.{check_gid}
use projeto_rc.Server.Paths.{group_path, groups_path, msg_name}
use projeto_rc.Server.Posts.{messages}
use projeto_rc.Server.Reply.{udp}
use projeto_rc.User.Session.{init_session, told}
use projeto_rc.Joint.Listing.{Row, listed}
use projeto_rc.Joint.Groups.{IsListed, list_groups-arrives}

abbrev group_server : Server
group_server = record { disk = one_group; buffer = [] }

gid_accepted : UserChecks.check_gid (some gid) ≡ true
unfolding UserChecks.check_gid
gid_accepted = refl

unsubscribe_from-Departs_example :
    Departs gid member group_server
      (exchange plain_os friendly (λ w. unsubscribe_from w gid) member group_server)
unsubscribe_from-Departs_example =
    unsubscribe_from-Departs plain_os friendly member group_server gid plain_os-IsPermissive
      (with_group-HasAccounts gid gname one_user-HasAccounts groups_dir group_free) member-IsSession
      member_logged gid_accepted

gname_accepted : UserChecks.check_gname (some gname) ≡ true
unfolding UserChecks.check_gname
gname_accepted = refl

one_group-Asks : Asks uid gid gname one_group
one_group-Asks = record { group = one_group-HasGroup; user = user_still; old = refl }

subscribe_to-Enrols_example :
    Enrols gid gname true member group_server
      (exchange plain_os friendly (λ w. subscribe_to w gid gname) member group_server)
subscribe_to-Enrols_example =
    subscribe_to-Enrols plain_os friendly member group_server gid gname b'r' (codes "c")
      plain_os-IsPermissive
      (with_group-HasAccounts gid gname one_user-HasAccounts groups_dir group_free) member-IsSession
      member_logged gid_accepted gname_accepted one_group-Asks

abbrev user_server : Server
user_server = record { disk = one_user; buffer = [] }

one_user-HasRoom : HasRoom plain_os uid one_user
one_user-HasRoom = record {
  user = user_there;
  groups_dir = groups_dir;
  room = room;
  free = new_free;
}

subscribe_to-Founds_example :
    Founds plain_os gname member user_server
      (exchange plain_os friendly (λ w. subscribe_to w new_gid gname) member user_server)
subscribe_to-Founds_example =
    subscribe_to-Founds plain_os friendly member user_server b'r' (codes "c") plain_os-IsPermissive
      one_user-HasAccounts member-IsSession member_logged gname_accepted one_user-HasRoom

abbrev group_row : Row
group_row = record { gid = gid; name = gname; count = codes "0000" }

gid_is_valid : check_gid (some gid) ≡ true
unfolding check_gid
gid_is_valid = refl

no_messages : sll_size (list_subdirectories plain_os messages one_group) ≡ 0
unfolding sll_size list_subdirectories lookup put readdir entries
no_messages = refl

counted_none :
    codes "0000"
    ≡ print_padded 4 (sll_size (list_subdirectories plain_os (msg_name ∷ group_path gid) one_group))
unfolding print_padded
counted_none = rw no_messages refl

group-IsListed : IsListed plain_os one_group group_row
group-IsListed = record {
  valid = gid_is_valid;
  group = one_group-HasGroup;
  few = omega (arith, no_messages);
  counted = counted_none;
}

groups_listed :
    items (list_subdirectories_ord plain_os groups_path one_group) ≡ map Row.gid (group_row ∷ [])
unfolding items list_subdirectories_ord sll_append_ord readdir entries lookup put
groups_listed = refl

list_groups-arrives_example :
    (s' : Server) × (exchange plain_os friendly (λ w. list_groups w) init_session group_server
      ≡ done (told init_session (udp (codes "GLS\n")) (listed (group_row ∷ [])), s'))
    × (s'.disk ≡ one_group)
list_groups-arrives_example =
    list_groups-arrives plain_os friendly init_session group_server (group_row ∷ [])
      (group-IsListed, tt) (omega arith) (omega arith) groups_listed
