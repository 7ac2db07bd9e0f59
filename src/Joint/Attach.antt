-- ===== src/Joint/Attach.antt =====
-- The file that `post` of the user's program sends, as the server stores it.
use projeto_rc.Base.{◌<◌, ◌≡◌, true, none, some, ◌∷◌, arith, Bytes, codes, length}
use projeto_rc.Base.Decimal.{print}
use projeto_rc.Base.Decimal.RoundTrip.{print-digits}
use projeto_rc.Base.Decimal.Length.{print-length}
use projeto_rc.Base.Outcome.{done}
use projeto_rc.Disk.{FilePath, dir, file, Disk, lookup, put, Os}
use projeto_rc.Files.Allowed.{IsPermissive}
use projeto_rc.Files.Laws.{IsTree}
use projeto_rc.Util.Word.Laws.{IsWord}
use projeto_rc.Server.Messages.{attach}
use projeto_rc.Server.Messages.File.{store_file_lem}
use projeto_rc.Server.Messages.Paths.{IsFileName}
use projeto_rc.Server.Dispatch.Words.{digits-IsWord}
use projeto_rc.User.Messages.{post_file}
use projeto_rc.Joint.Posting.{size_of-print}

-- Where the system refuses the server nothing, the disk is a tree and the directory of a message
-- exists without a directory FILE, the bytes that `post` of the user's program writes for a file,
-- read by `post` of the server, make the directory FILE with one file of that name and exactly
-- that content, without the newline that `read_file` adds; the name is shorter than 24 bytes, a
-- single word and no path, and the content shorter than 2^31 - 1 bytes.
pub attach-post_file :
    (os : Os) (msg_dir : FilePath) (name content : Bytes) (fs : Disk)
    → IsPermissive os
    → IsTree fs
    → lookup fs msg_dir ≡ some dir
    → lookup fs (codes "FILE" ∷ msg_dir) ≡ none
    → IsFileName name
    → IsWord name
    → length name < 24
    → length content < 2_147_483_647
    → attach os msg_dir (post_file name content) fs
      ≡ done (
        put (name ∷ codes "FILE" ∷ msg_dir) (file content) (put (codes "FILE" ∷ msg_dir) dir fs),
        true,
      )
unfolding attach
attach-post_file os msg_dir name content fs allowed t up free named word short small =
    let fits : length (print (length content)) < 24 =
      omega (arith, print-length 9 (length content) (omega arith)) in
    store_file_lem os allowed msg_dir name (print (length content)) content (codes "\n") fs t up
      free named word short (digits-IsWord _ (print-digits (length content))) fits
      (size_of-print (length content) small)
