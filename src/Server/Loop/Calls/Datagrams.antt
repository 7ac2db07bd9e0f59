-- ===== src/Server/Loop/Calls/Datagrams.antt =====
-- The command of a datagram of src/server/server.c keeps what the system calls keep.
use projeto_rc.Base.{text_eq, Option, none, some, Bytes, codes}
use projeto_rc.Base.Outcome.{Ensures, Ensures->>=, Ensures-if}
use projeto_rc.Disk.{Disk, Os}
use projeto_rc.Util.Word.{Cursor, get_word}
use projeto_rc.Server.Accounts.{
  register, remove_user, log_in, log_out, reg, unregister, login_, logout_,
}
use projeto_rc.Server.Dispatch.{parse_udp_message, dispatch_udp, run_udp}
use projeto_rc.Server.Loop.Calls.{IsKept, KeepsBoth}
use projeto_rc.Server.Loop.Calls.Accounts.{
  register-Keeps, remove_user-Keeps, log_in-Keeps, log_out-Keeps, with_credentials-Keeps,
}
use projeto_rc.Server.Loop.Calls.Groups.{
  groups_keeps, subscribe_keeps, unsubscribe_keeps, my_groups_keeps,
}

module _ (os : Os) (P : Disk → Type 0) (kept : IsKept os P) where
  run_udp_keeps :
      (command : Bytes) (args : Cursor) (fs : Disk)
      → P fs
      → Ensures (KeepsBoth P) (run_udp os command args fs)
  unfolding reg unregister login_ logout_
  run_udp_keeps command args fs h =
      Ensures-if (KeepsBoth P) (text_eq command (codes "REG")) _ _
        (λ _.
          with_credentials-Keeps os P kept (codes "RRG NOK\n") (register os) args fs h
            (λ u p _. register-Keeps os P kept u p fs h))
        λ _.
          Ensures-if (KeepsBoth P) (text_eq command (codes "UNR")) _ _
            (λ _.
              with_credentials-Keeps os P kept (codes "RUN NOK\n") (remove_user os) args fs h
                (λ u p v. remove_user-Keeps os P kept u p fs v h))
            λ _.
              Ensures-if (KeepsBoth P) (text_eq command (codes "LOG")) _ _
                (λ _.
                  with_credentials-Keeps os P kept (codes "RLO NOK\n") (log_in os) args fs h
                    (λ u p _. log_in-Keeps os P kept u p fs h))
                λ _.
                  Ensures-if (KeepsBoth P) (text_eq command (codes "OUT")) _ _
                    (λ _.
                      with_credentials-Keeps os P kept (codes "ROU NOK\n") (log_out os) args fs h
                        (λ u p _. log_out-Keeps os P kept u p fs h))
                    λ _.
                      Ensures-if (KeepsBoth P) (text_eq command (codes "GLS")) _ _
                        (λ _. groups_keeps os P kept args fs h)
                        λ _.
                          Ensures-if (KeepsBoth P) (text_eq command (codes "GSR")) _ _
                            (λ _. subscribe_keeps os P kept args fs h)
                            λ _.
                              Ensures-if (KeepsBoth P) (text_eq command (codes "GUR")) _ _
                                (λ _. unsubscribe_keeps os P kept args fs h)
                                λ _.
                                  Ensures-if (KeepsBoth P) (text_eq command (codes "GLM")) _ _
                                    (λ _. my_groups_keeps os P kept args fs h) (λ _. h)

  dispatch_udp_keeps :
      (command : Option Bytes) (args : Cursor) (fs : Disk)
      → P fs
      → Ensures (KeepsBoth P) (dispatch_udp os command args fs)
  dispatch_udp_keeps none args fs h = tt
  dispatch_udp_keeps (some command) args fs h = run_udp_keeps command args fs h

  -- The command of a datagram.
  pub parse_udp_message_keeps :
      (msg : Cursor) (fs : Disk) → P fs → Ensures (KeepsBoth P) (parse_udp_message os msg fs)
  unfolding parse_udp_message
  parse_udp_message_keeps msg fs h =
      Ensures->>= (KeepsBoth P) (get_word msg) _
        λ (command, args) _. dispatch_udp_keeps command args fs h
