-- ===== src/PageMeta/Document/Status.antt =====
-- What the head line of a superseded decision links to.
use multiplayer_fabric_manua.Common.{[], ◌∷◌, ◌++◌, ◌≡◌, ap}
use multiplayer_fabric_manua.Common.Text.{Text, codes}
use multiplayer_fabric_manua.PageMeta.Patterns.Superseded.{Superseded, group-superseded_re}
use multiplayer_fabric_manua.PageMeta.Document.{Panflute, superseded, status_inlines}

-- For a status that says by which file the decision is superseded, whatever its case and the white
-- space around the file's name, the head line has the words `superseded by`, in lower case, a space
-- and a link with the name that leads to its page.
pub status_inlines-Superseded :
    (pf : Panflute) (status stem : Text)
    → Superseded status stem
    → status_inlines pf status
      ≡ pf.str (codes "superseded by")
        ∷ pf.space
        ∷ pf.link (pf.str stem) (stem ++ codes ".html")
        ∷ []
unfolding status_inlines
status_inlines-Superseded pf status stem q =
    ap (superseded pf status) ((group-superseded_re status stem).1 q)
