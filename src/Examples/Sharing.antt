-- ===== src/Examples/Sharing.antt =====
-- "ana" shares "/docs" with "bob", and takes the right back.
use dfsha_telematica.Prelude.{String, refl, inl, inr, In, ==_iff, string_eq}
use dfsha_telematica.FilePath.{codes}
use dfsha_telematica.Session.Whole.{Whole}
use dfsha_telematica.Commands.Sharing.{unshare}
use dfsha_telematica.Commands.Sharing.Granted.{unshare-keeps}
use dfsha_telematica.Examples.Tree.{shared_db, foreign_row}

unshare-keeps_example :
    In foreign_row (unshare "ana" (codes "/docs") (codes "team") shared_db).1.acl_entries
unshare-keeps_example =
    unshare-keeps "ana" (codes "/docs") (codes "team") shared_db foreign_row (inr (inl refl)) refl
      ((λ h. cc ((==_iff {A = String} "bob" "ana").1 h)), tt)
