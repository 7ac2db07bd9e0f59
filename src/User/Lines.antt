-- ===== src/User/Lines.antt =====
-- What the prompt reads, and what `post` takes out of it, on concrete lines.
use projeto_rc.Base.{◌≡◌, refl, some, [], ◌∷◌, ◌++◌, codes, nul}
use projeto_rc.Base.Outcome.{done, stop, out_of_bounds}
use projeto_rc.Util.Line.{get_line}
use projeto_rc.User.Messages.{unquoted}

-- A line over a longer one.
line_over :
    get_line 128 (codes "groups" ++ nul ∷ []) (codes "gl\nexit\n")
    ≡ done (codes "gl" ++ nul ∷ (codes "ups" ++ nul ∷ []), codes "exit\n")
unfolding get_line
line_over = refl

-- An empty line leaves what was there.
line_empty :
    get_line 128 (codes "exit" ++ nul ∷ []) (codes "\ngl\n")
    ≡ done (codes "exit" ++ nul ∷ [], codes "gl\n")
unfolding get_line
line_empty = refl

line_long : get_line 4 [] (codes "exit\n") ≡ stop out_of_bounds
unfolding get_line
line_long = refl

quote_lone : unquoted (codes "\"") ≡ some (codes "-1", [])
unfolding unquoted
quote_lone = refl
