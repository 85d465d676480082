-- ===== src/PageMeta/Tests/Status.antt =====
-- The status of a superseded decision, on one that is written in upper case.
use multiplayer_fabric_manua.Common.{some, [], ◌∷◌, ◌++◌, ◌≡◌, ◌↔◌, refl}
use multiplayer_fabric_manua.Common.Text.{Text, codes}
use multiplayer_fabric_manua.Regex.{group_of, match_start}
use multiplayer_fabric_manua.Regex.Classes.{is_space}
use multiplayer_fabric_manua.PageMeta.Patterns.{same_letter, superseded_re}
use multiplayer_fabric_manua.PageMeta.Patterns.Superseded.{Superseded, group-superseded_re}
use multiplayer_fabric_manua.PageMeta.Document.{Panflute, status_inlines}
use multiplayer_fabric_manua.PageMeta.Tests.{plain_text}
use multiplayer_fabric_manua.PageMeta.Document.Status.{status_inlines-Superseded}

abbrev status : Text
status = codes "Superseded By  20250101-b.MD "

abbrev stem : Text
stem = codes "20250101-b"

status-Superseded : Superseded status stem
unfolding is_space same_letter
status-Superseded = record {
  words = codes "Superseded By";
  gap = codes "  ";
  extension = codes ".MD";
  trail = codes " ";
  whole = refl;
  words_fold = refl;
  gap_some = λ e. cc;
  gap_space = refl;
  stem_some = λ e. cc;
  stem_solid = refl;
  extension_fold = refl;
  trail_space = refl;
}

group-superseded_re_example :
    (group_of (match_start superseded_re status) ≡ some stem) ↔ Superseded status stem
group-superseded_re_example = group-superseded_re status stem

-- A link shows where it leads.
abbrev with_links : Panflute
with_links = record plain_text { link = λ t url. t ++ codes " -> " ++ url }

status_inlines-Superseded_example :
    status_inlines with_links status
    ≡ codes "superseded by" ∷ codes " " ∷ codes "20250101-b -> 20250101-b.html" ∷ []
status_inlines-Superseded_example =
    status_inlines-Superseded with_links status stem status-Superseded
