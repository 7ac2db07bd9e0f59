-- ===== src/User/Invariant/Groups.antt =====
-- The group commands of the user's program, and what a session may be.
use projeto_rc.Base.{
  ◌<◌, ◌≡◌, inl, inr, true, ◌&&◌, Option, none, some, ◌++◌, arith, Bytes, codes, text_eq, length,
  length-append, if◌then◌else◌, Bool-cases,
}
use projeto_rc.Base.Outcome.{done, Ensures, Ensures->>=, Ensures-done}
use projeto_rc.Util.Word.{Cursor, get_word}
use projeto_rc.Server.Reply.{text_of}
use projeto_rc.User.Checks.{gid_lines, group_lines, check_uid, check_gid, check_gname}
use projeto_rc.User.Session.{
  Session, World, stay, expect, read_word, rounds_of, is_logged, is_group_selected, select_group,
}
use projeto_rc.User.Accounts.{buffer_size}
use projeto_rc.User.Groups.{
  response_size, group_rows, my_rows, list_groups, groups, subscribed, subscribe_to, subscribe,
  unsubscribe_from, unsubscribe, groups_of, my_groups, select_, showgid,
}
use projeto_rc.User.Invariant.{
  IsSession, IsValid, ValidTurn, with_cursor-ValidTurn, ask-IsValid, logged_user,
  select_group-IsSession,
}

-- The length of a valid field.
pub check_uid-length : (uid : Bytes) → check_uid (some uid) ≡ true → length uid ≡ 5
unfolding check_uid
check_uid-length uid h = ground arith

pub check_gid-length : (gid : Bytes) → check_gid (some gid) ≡ true → length gid ≡ 2
unfolding check_gid
check_gid-length gid h = ground arith

check_gname-length : (gname : Bytes) → check_gname (some gname) ≡ true → length gname < 24
unfolding check_gname
check_gname-length gname h = ground arith

module _ (w : World) (s : Session) (v : IsSession s) where
  list_groups-IsValid : Ensures IsValid (list_groups w s)
  unfolding list_groups
  list_groups-IsValid = ask-IsValid w s (codes "GLS\n") response_size _ v (omega arith) λ reply.
      Ensures->>= IsValid (expect (codes "RGL") reply) _ λ next _.
        Ensures->>= IsValid (read_word next.1) _ λ count _.
          Ensures->>= IsValid (rounds_of count.0) _
            λ n _. Ensures->>= IsValid (group_rows n.0 count.1) _ λ lines _. (v, (omega arith, tt))

  module _ (on : is_logged s ≡ true) where
    uid_length : length s.uid ≡ 5
    uid_length = check_uid-length s.uid (logged_user s v on).0

    subscribe_to-IsValid :
        (gid gname : Bytes)
        → check_gid (some gid) ≡ true
        → check_gname (some gname) ≡ true
        → Ensures IsValid (subscribe_to w gid gname s)
    unfolding subscribe_to
    subscribe_to-IsValid gid gname g n =
        let rest : Bytes = gid ++ (codes " " ++ (gname ++ codes "\n")) in
        let short : length (codes "GSR " ++ (s.uid ++ (codes " " ++ rest))) < buffer_size = omega (
          arith,
          length-append s.uid (codes " " ++ rest),
          length-append gid (codes " " ++ (gname ++ codes "\n")),
          length-append gname (codes "\n"),
          uid_length,
          check_gid-length gid g,
          check_gname-length gname n,
        ) in
        ask-IsValid w s _ buffer_size _ v short λ reply.
          Ensures->>= IsValid (expect (codes "RGS") reply) _ λ next _.
            Ensures->>= IsValid (read_word next.1) _ λ status _.
              Ensures->>= IsValid (subscribed w gid gname status.0 status.1) _
                λ line _. (v, (short, tt))

    unsubscribe_from-IsValid :
        (gid : Bytes) → check_gid (some gid) ≡ true → Ensures IsValid (unsubscribe_from w gid s)
    unfolding unsubscribe_from
    unsubscribe_from-IsValid gid g =
        let short : length (codes "GUR " ++ (s.uid ++ (codes " " ++ (gid ++ codes "\n"))))
            < buffer_size =
          omega (
            arith,
            length-append s.uid (codes " " ++ (gid ++ codes "\n")),
            length-append gid (codes "\n"),
            uid_length,
            check_gid-length gid g,
          ) in
        ask-IsValid w s _ buffer_size _ v short λ reply.
          Ensures->>= IsValid (expect (codes "RGU") reply) _
            λ next _. Ensures->>= IsValid (read_word next.1) _ λ status _. (v, (short, tt))

    groups_of_logged : Ensures IsValid (groups_of w s)
    unfolding groups_of
    groups_of_logged =
        let short : length (codes "GLM " ++ (s.uid ++ codes "\n")) < buffer_size =
          omega (arith, length-append s.uid (codes "\n"), uid_length) in
        rw on (
          ask-IsValid w s _ response_size _ v short λ reply.
            Ensures->>= IsValid (expect (codes "RGM") reply) _ λ next _.
              Ensures->>= IsValid (read_word next.1) _ λ count _.
                elim (Bool-cases (text_eq count.0 (codes "E_USR"))) [
                  | inl e ↦ rw e (v, (short, tt))
                  | inr e ↦ rw e (
                      Ensures->>= IsValid (rounds_of count.0) _ λ n _.
                        Ensures->>= IsValid (my_rows n.0 count.1) _ λ lines _. (v, (short, tt)))
                ])

  groups_of-IsValid : Ensures IsValid (groups_of w s)
  groups_of-IsValid = elim (Bool-cases (is_logged s)) [
    | inl on ↦ groups_of_logged on
    | inr off ↦ unfold groups_of in rw off (v, tt)
  ]

module _ (w : World) (args : Cursor) (s : Session) (v : IsSession s) where
  pub groups-ValidTurn : Ensures ValidTurn (groups w args s)
  unfolding groups
  groups-ValidTurn = with_cursor-ValidTurn (list_groups w s) args (list_groups-IsValid w s v)

  pub my_groups-ValidTurn : Ensures ValidTurn (my_groups w args s)
  unfolding my_groups
  my_groups-ValidTurn = with_cursor-ValidTurn (groups_of w s) args (groups_of-IsValid w s v)

  subscribe_words :
      is_logged s ≡ true
      → (a b : Option Bytes)
      → Ensures IsValid (
          if check_gid a && check_gname b
          then subscribe_to w (text_of a) (text_of b) s
          else done (stay s (group_lines a b)))
  unfolding check_gid check_gname
  subscribe_words on none b = (v, tt)
  subscribe_words on (some a) none = elim (Bool-cases (check_gid (some a))) [
    | inl e ↦ rw e (v, tt)
    | inr e ↦ rw e (v, tt)
  ]
  subscribe_words on (some a) (some b) = elim (Bool-cases (check_gid (some a))) [
    | inr e ↦ rw e (v, tt)
    | inl g ↦ elim (Bool-cases (check_gname (some b))) [
      | inr e ↦ rw (g, e) (v, tt)
      | inl n ↦ rw (g, n) (subscribe_to-IsValid w s v on a b g n)
    ]
  ]

  pub subscribe-ValidTurn : Ensures ValidTurn (subscribe w args s)
  unfolding subscribe
  subscribe-ValidTurn = elim (Bool-cases (is_logged s)) [
    | inr off ↦ rw off (v, tt)
    | inl on ↦ rw on (
        Ensures->>= ValidTurn (get_word args) _ λ a _.
          Ensures->>= ValidTurn (get_word a.1) _
            λ b _. with_cursor-ValidTurn _ b.1 (subscribe_words on a.0 b.0))
  ]

  unsubscribe_word :
      is_logged s ≡ true
      → (a : Option Bytes)
      → Ensures IsValid
          (if check_gid a then unsubscribe_from w (text_of a) s else done (stay s (gid_lines a)))
  unfolding check_gid
  unsubscribe_word on none = (v, tt)
  unsubscribe_word on (some a) = elim (Bool-cases (check_gid (some a))) [
    | inr e ↦ rw e (v, tt)
    | inl g ↦ rw g (unsubscribe_from-IsValid w s v on a g)
  ]

  pub unsubscribe-ValidTurn : Ensures ValidTurn (unsubscribe w args s)
  unfolding unsubscribe
  unsubscribe-ValidTurn = elim (Bool-cases (is_logged s)) [
    | inr off ↦ rw off (v, tt)
    | inl on ↦ rw on (
        Ensures->>= ValidTurn (get_word args) _
          λ a _. with_cursor-ValidTurn _ a.1 (unsubscribe_word on a.0))
  ]

  pub select_-ValidTurn : Ensures ValidTurn (select_ w args s)
  unfolding select_
  select_-ValidTurn = Ensures->>= ValidTurn (get_word args) _ λ a _.
      with_cursor-ValidTurn _ a.1 (elim (Bool-cases (check_gid a.0)) [
        | inr e ↦ rw e (v, tt)
        | inl g ↦ elim (Bool-cases (is_logged s)) [
          | inr off ↦ rw (g, off) (v, tt)
          | inl on ↦
              rw (g, on)
                (Ensures->>= IsValid (select_group s (text_of a.0)) _ λ s' e.
                  (Ensures-done IsSession _ e (select_group-IsSession s (text_of a.0) v on), tt))
        ]
      ])

  pub showgid-ValidTurn : Ensures ValidTurn (showgid w args s)
  unfolding showgid
  showgid-ValidTurn = elim (Bool-cases (is_logged s)) [
    | inr off ↦ rw off (v, tt)
    | inl on ↦ elim (Bool-cases (is_group_selected s)) [
      | inr e ↦ rw (on, e) (v, tt)
      | inl e ↦ rw (on, e) (v, tt)
    ]
  ]
