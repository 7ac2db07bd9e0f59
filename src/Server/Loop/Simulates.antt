-- ===== src/Server/Loop/Simulates.antt =====
-- `serve` of Server/Dispatch, which ends a child process before the next event, is a run of the processes
-- of src/server/server.c.
use projeto_rc.Base.{
  ℕ, zero, suc, ◌≡◌, refl, sym, ap, ◌∙◌, true, Option, none, some, List, [], ◌∷◌, ◌++◌, Bytes,
  append_assoc, append-nil, arith,
}
use mathlib.Core.Path.{subst}
use projeto_rc.Base.Outcome.{Outcome, done, stop, ◌>>=◌, >>=-eq-done, done_injective}
use projeto_rc.Disk.{Disk, Os}
use projeto_rc.Util.Word.{Cursor, start, buffer_of}
use projeto_rc.Server.Reply.{Answer, Message}
use projeto_rc.Server.Dispatch.{
  Server, Event, datagram, connection, wait_udp_message, parse_udp_message, parse_tcp_message,
  handle, serve,
}
use projeto_rc.Server.Loop.{
  Task, unread, advance, go_on, alone, Connection, Machine, received, accept_connection, round,
  still, Step, main, child, Reach, here, next,
}
use projeto_rc.Server.Loop.Alone.{result, alone-parse_tcp_message}

abbrev busy : Bytes → Disk → List Task → Machine
busy b fs ts = record { disk = fs; buffer = b; tasks = ts; running = true }

-- The server between two events: no child process is left.
abbrev pub idle : Server → Machine
idle s = busy s.buffer s.disk []

module _ (os : Os) where
  retold :
      {m n k : Machine} {sent told : List Message}
      → sent ≡ told
      → n ≡ k
      → Reach os m sent n
      → Reach os m told k
  retold {m} {n} {k} {sent} {told} e f r =
      subst (λ x. Reach os m told x) f (subst (λ x. Reach os m x n) e r)

  pub Reach-trans :
      {m n k : Machine} {sent more : List Message}
      → Reach os m sent n
      → Reach os n more k
      → Reach os m (sent ++ more) k
  Reach-trans here r = r
  Reach-trans {m} {n} {k} {more = more} (next {sent = a} {more = b} s r) q =
      retold (sym (append_assoc a b more)) refl (next s (Reach-trans r q))

  rest-Reach :
      (b : Bytes) (n : ℕ) (m : Machine) (fs fs' : Disk) (sent told : List Message) (t : Option Task)
      → Step os m sent (busy b fs (still os t ++ []))
      → ((u : Task) (more : List Message)
          → alone os n u fs ≡ done (fs', more)
          → Reach os (busy b fs (u ∷ [])) more (busy b fs' []))
      → go_on (alone os n) fs sent t ≡ done (fs', told)
      → Reach os m told (busy b fs' [])
  rest-Reach b n m fs fs' sent told none s later e =
      let same : (fs, sent) ≡ (fs', told) = done_injective e in
      retold (append-nil sent ∙ ap (λ (x : Disk × List Message). x.1) same)
        (ap (λ (x : Disk × List Message). busy b x.0 []) same) (next s here)
  rest-Reach b n m fs fs' sent told (some u) s later e =
      let ((fs1, more), a, k) = >>=-eq-done (alone os n u fs) _ e in
      let same : (fs1, sent ++ more) ≡ (fs', told) = done_injective k in
      retold (ap (λ (x : Disk × List Message). x.1) same) refl
        (next s (later u more (a ∙ ap (λ (x : Disk × List Message). done (x.0, more)) same)))

  -- A process that runs alone is a run of the machine.
  alone-Reach :
      (b : Bytes) (n : ℕ) (t : Task) (fs fs' : Disk) (sent : List Message)
      → alone os n t fs ≡ done (fs', sent)
      → Reach os (busy b fs (t ∷ [])) sent (busy b fs' [])
  unfolding alone
  alone-Reach b zero t fs fs' sent e = absurd (ground arith)
  alone-Reach b (suc n) t fs fs' sent e =
      let (r, a, k) = >>=-eq-done (advance os t fs) _ e in
      rest-Reach b n _ r.disk fs' r.sent sent r.task (child [] t [] r refl a)
        (λ u more h. alone-Reach b n u r.disk fs' more h) k

  abbrev answered : Answer × Cursor → Server × List Message
  answered (a, cur) = (record { disk = a.disk; buffer = buffer_of cur }, a.sent)

  abbrev lifted : Server × List Message → Machine × List Message
  lifted (s, sent) = (idle s, sent)

  again :
      (m : Outcome (Answer × Cursor))
      → (m >>= λ r. done (lifted (answered r)))
        ≡ ((m >>= λ r. done (answered r)) >>= λ r. done (lifted r))
  again (done r) = refl
  again (stop e) = refl

  -- `accept`, `fork`, and the child to its end.
  served_connection :
      (bytes : Bytes) (s s' : Server) (sent : List Message)
      → handle os (connection bytes) s ≡ done (s', sent)
      → Reach os (idle s) sent (idle s')
  unfolding handle round accept_connection
  served_connection bytes s s' sent h =
      let (a, p, k) = >>=-eq-done (parse_tcp_message os bytes s.disk) _ h in
      let same : (record s { disk = a.disk }, a.sent) ≡ (s', sent) = done_injective k in
      let opened : Connection = record { stream = some bytes; fork = true; close = true } in
      retold (ap (λ (x : Server × List Message). x.1) same)
        (ap (λ (x : Server × List Message). idle x.0) same)
        (next (main (record { udp_set = none; tcp_set = some opened }) refl refl) (
          alone-Reach s.buffer 3 (unread bytes) s.disk a.disk a.sent
            (alone-parse_tcp_message os bytes s.disk ∙ ap (λ m. m >>= result) p)))

  round-handle :
      (msg : Bytes) (s : Server)
      → round os (record { udp_set = some (some msg); tcp_set = none }) (idle s)
        ≡ (handle os (datagram msg) s >>= λ r. done (lifted r))
  unfolding round received handle
  round-handle msg s = again (parse_udp_message os (start (wait_udp_message msg s.buffer)) s.disk)

  -- One event that `handle` serves.
  handle-Reach :
      (e : Event) (s s' : Server) (sent : List Message)
      → handle os e s ≡ done (s', sent)
      → Reach os (idle s) sent (idle s')
  handle-Reach (datagram msg) s s' sent h = retold (append-nil sent) refl (
      next
        (main (record { udp_set = some (some msg); tcp_set = none }) refl
          (round-handle msg s ∙ ap (λ m. m >>= λ r. done (lifted r)) h))
        here)
  handle-Reach (connection bytes) s s' sent h = served_connection bytes s s' sent h

  -- Whatever the system refuses, events that are served one after the other to a result, each
  -- connection by a child process to its end, are a run of the machine of the main loop and its
  -- child processes, from and to a server without child processes, that sends the same messages.
  pub serve-Reach :
      (es : List Event) (s s' : Server) (sent : List Message)
      → serve os es s ≡ done (s', sent)
      → Reach os (idle s) sent (idle s')
  unfolding serve
  serve-Reach [] s s' sent h =
      let same : (s, []) ≡ (s', sent) = done_injective h in
      retold (ap (λ (x : Server × List Message). x.1) same)
        (ap (λ (x : Server × List Message). idle x.0) same) here
  serve-Reach (e ∷ es) s s' sent h =
      let ((s1, sent1), a, k) = >>=-eq-done (handle os e s) _ h in
      let ((s2, sent2), b, l) = >>=-eq-done (serve os es s1) _ k in
      let same : (s2, sent1 ++ sent2) ≡ (s', sent) = done_injective l in
      retold (ap (λ (x : Server × List Message). x.1) same)
        (ap (λ (x : Server × List Message). idle x.0) same)
        (Reach-trans (handle-Reach e s s1 sent1 a) (serve-Reach es s1 s2 sent2 b))
