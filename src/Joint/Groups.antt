-- ===== src/Joint/Groups.antt =====
-- The list of groups from the server's disk to `groups` of the user's program.
use mathlib.Core.List.{reverse}
use projeto_rc.Base.{
  ltb, suc, ◌+◌, ◌*◌, ◌≤◌, ◌<◌, ◌≡◌, refl, sym, ◌∙◌, ap, true, false, none, some, List, [], ◌∷◌,
  ◌++◌, append_assoc, map, arith, Bytes, codes, nul, space, is_digit, length, length-append, drop,
  all, All,
}
use projeto_rc.Base.Decimal.{print, print_padded}
use projeto_rc.Base.Decimal.RoundTrip.{print_padded-digits}
use projeto_rc.Base.Decimal.Length.{print-length, print_padded-exact}
use projeto_rc.Base.Outcome.{done}
use projeto_rc.Util.Word.{Cursor, get_word, buffer_of}
use projeto_rc.Server.Dispatch.Words.{digits-IsWord, gname-IsWord}
use projeto_rc.User.Session.{Session, World, Turn, told}
use projeto_rc.User.Groups.{list_groups, response_size}
use projeto_rc.Server.Reply.{udp, scan_string}
use projeto_rc.Disk.{Disk, Os}
use projeto_rc.Sll.{sll_size, items, Sll}
use projeto_rc.Files.{list_subdirectories, list_subdirectories_ord}
use projeto_rc.Server.Checks.{check_gid, check_gname}
use projeto_rc.Server.Paths.{group_path, groups_path, msg_name, name_txt}
use projeto_rc.Server.Groups.{group_line, group_lines, groups}
use projeto_rc.Server.Groups.Join.{HasGroup, scan_string-short}
use projeto_rc.Joint.Sending.{open_read-file}
use projeto_rc.Sll.Laws.{sll_size-items}
use projeto_rc.Files.Listing.{list_subdirectories_ord-IsListing}
use projeto_rc.Server.Dispatch.{Server, datagram, wait_udp_message, parse_udp_message, handle}
use projeto_rc.Joint.Turns.{exchange-answered}
use projeto_rc.Joint.{reply_of, served, exchange}
use projeto_rc.Joint.Listing.{Row, IsRow, rows_text, listed, list_groups-rows}

module _ (os : Os) (fs : Disk) where
  -- A group of the server, with fewer than ten thousand messages.
  pub record IsListed (r : Row) : Type 0 where
    pub valid : check_gid (some r.gid) ≡ true
    pub group : HasGroup r.gid r.name fs
    pub few : sll_size (list_subdirectories os (msg_name ∷ group_path r.gid) fs) < 10000
    pub counted :
        r.count
        ≡ print_padded 4 (sll_size (list_subdirectories os (msg_name ∷ group_path r.gid) fs))

  row_text : Row → Bytes
  row_text r = space ∷ (r.gid ++ space ∷ (r.name ++ space ∷ r.count))

  group_line_lem : (r : Row) → IsListed r → group_line os r.gid fs ≡ done (row_text r)
  unfolding group_line row_text
  group_line_lem r h =
      let (c, s, first) = h.group.name_first in
      let read : scan_string 25 r.name ≡ done r.name =
        rw first (scan_string-short c s (rw first at h.group.valid)) in
      rw
        (
          open_read-file os fs (name_txt ∷ group_path r.gid) r.name h.group.name_file,
          read,
          sym h.counted,
        )
        refl

  rows_part : List Row → Bytes
  rows_part [] = []
  rows_part (r ∷ rs) = row_text r ++ rows_part rs

  group_lines_lem :
      (rs : List Row) → All IsListed rs → group_lines os (map Row.gid rs) fs ≡ done (rows_part rs)
  unfolding group_lines rows_part
  group_lines_lem [] h = refl
  group_lines_lem (r ∷ rs) (h, hs) = rw (group_line_lem r h, group_lines_lem rs hs) refl

  rows_part-newline : (rs : List Row) → rows_part rs ++ codes "\n" ≡ rows_text [] rs
  unfolding rows_part row_text
  rows_part-newline [] = refl
  rows_part-newline (r ∷ rs) = simp (append_assoc, rows_part-newline rs)

  count_four : (r : Row) → IsListed r → length r.count ≡ 4
  count_four r h = rw h.counted (print_padded-exact 3 _ h.few)

  IsListed-IsRow : (r : Row) → IsListed r → IsRow r
  unfolding check_gid check_gname
  IsListed-IsRow r h =
      let gid_digits : all is_digit r.gid ≡ true = ground (arith, h.valid) in
      let gid_two : length r.gid ≡ 2 = ground (arith, h.valid) in
      let (c, s, first) = h.group.name_first in
      let name_one : length r.name ≡ length (c ∷ s) = ap length first in
      let count_digits : all is_digit r.count ≡ true = rw h.counted (print_padded-digits 4 _) in
      (
        (digits-IsWord r.gid gid_digits, omega arith),
        (gname-IsWord r.name (ground (arith, h.group.valid)), omega arith),
        (digits-IsWord r.count count_digits, omega (arith, count_four r h)),
      )

  rows_text-length :
      (rs : List Row) → All IsListed rs → length (rows_text [] rs) ≤ 1 + 32 * length rs
  unfolding check_gid check_gname
  rows_text-length [] h = omega arith
  rows_text-length (r ∷ rs) (h, hs) =
      let gid_two : length r.gid ≡ 2 = ground (arith, h.valid) in
      let name_short : length r.name < 24 = ground (arith, h.group.valid) in
      omega (
        arith,
        length-append r.gid (space ∷ (r.name ++ space ∷ (r.count ++ rows_text [] rs))),
        length-append r.name (space ∷ (r.count ++ rows_text [] rs)),
        length-append r.count (rows_text [] rs),
        count_four r h,
        rows_text-length rs hs,
      )

length-rows : (rs : List Row) → length (map Row.gid rs) ≡ length rs
length-rows [] = refl
length-rows (r ∷ rs) = ap suc (length-rows rs)

module _ (os : Os) (w : World) (c : Session) (s : Server) where
  abbrev pub all_groups : Sll
  all_groups = list_subdirectories_ord os groups_path s.disk

  groups_answer :
      (rs : List Row) (args : Cursor)
      → All (IsListed os s.disk) rs
      → 1 ≤ length rs
      → items all_groups ≡ map Row.gid rs
      → groups os args s.disk
        ≡ done (
          record {
            disk = s.disk;
            sent = udp (codes "RGL " ++ (print (length rs) ++ rows_text [] rs)) ∷ [];
            value = none;
          },
          args,
        )
  unfolding groups
  groups_answer rs args h one listed =
      let size : sll_size all_groups ≡ length rs =
        sll_size-items all_groups (list_subdirectories_ord-IsListing os groups_path s.disk).1
        ∙ (ap length listed ∙ length-rows rs) in
      let lines : group_lines os (items all_groups) s.disk ≡ done (rows_part os s.disk rs) =
        ap (λ l. group_lines os l s.disk) listed ∙ group_lines_lem os s.disk rs h in
      let end : length (rows_part os s.disk rs) + 1 ≡ length (rows_text [] rs) =
        sym (length-append (rows_part os s.disk rs) (codes "\n"))
        ∙ ap length (rows_part-newline os s.disk rs) in
      let room : ltb (33 * length rs) (length (rows_part os s.disk rs) + 1) ≡ false =
        ground (arith, rows_text-length os s.disk rs h) in
      rw (lines, size, room, rows_part-newline os s.disk rs) refl

  listed_rows : (rs : List Row) → All (IsListed os s.disk) rs → All IsRow rs
  listed_rows [] h = tt
  listed_rows (r ∷ rs) (h, hs) = (IsListed-IsRow os s.disk r h, listed_rows rs hs)

  handled_groups :
      (rs : List Row)
      → All (IsListed os s.disk) rs
      → 1 ≤ length rs
      → items all_groups ≡ map Row.gid rs
      → (s' : Server) × (handle os (datagram (codes "GLS\n")) s
          ≡ done (s', udp (codes "RGL " ++ (print (length rs) ++ rows_text [] rs)) ∷ []))
        × (s'.disk ≡ s.disk)
  unfolding handle wait_udp_message parse_udp_message get_word
  handled_groups rs h one gids =
      let args : Cursor = record {
        behind = nul ∷ reverse (codes "GLS");
        ahead = drop 4 s.buffer;
        ended = false;
      } in
      (record s { buffer = buffer_of args }, rw (groups_answer rs args h one gids) refl, refl)

  -- On a server with one to 99 groups in its sorted list, each with a valid gid, a valid name
  -- that is not empty, and fewer than ten thousand messages, `groups` of the user's program,
  -- answered by the server, comes to an end and prints a heading and a line with the gid, the
  -- name and the number of messages in four digits for each of them, in the order of the list;
  -- the server's disk does not change.
  pub list_groups-arrives :
      (rs : List Row)
      → All (IsListed os s.disk) rs
      → 1 ≤ length rs
      → length rs ≤ 99
      → items all_groups ≡ map Row.gid rs
      → (s' : Server) × (exchange os w (λ w'. list_groups w') c s
          ≡ done (told c (udp (codes "GLS\n")) (listed rs), s'))
        × (s'.disk ≡ s.disk)
  list_groups-arrives rs h one few gids =
      let turn : Turn = told c (udp (codes "GLS\n")) (listed rs) in
      let (s', e, same) = handled_groups rs h one gids in
      let short : length (codes "RGL " ++ (print (length rs) ++ rows_text [] rs)) < response_size =
        omega (
          arith,
          length-append (print (length rs)) (rows_text [] rs),
          print-length 1 (length rs) (omega arith),
          rows_text-length os s.disk rs h,
        ) in
      let ran : list_groups (served os s w) c ≡ done turn =
        list_groups-rows (served os s w) c rs (listed_rows rs h) (omega arith) short
          (ap reply_of e) in
      (s', exchange-answered os w (λ w. list_groups w) c s s' turn _ _ ran refl e, same)
