-- ===== src/PageMeta/Tests.antt =====
-- Scans of two pages, and the theorems at concrete inputs.
mod Order
mod Ways
mod Status
use mathlib.Core.List.{Memᴰ}
use multiplayer_fabric_manua.Common.{none, List, [], refl, some, true, ◌↔◌, ◌∷◌, ◌≡◌, ◌≢◌, ◌⊎◌}
use multiplayer_fabric_manua.Common.Dict.{keys, lookup, store}
use multiplayer_fabric_manua.Common.Lists.{Distinct}
use multiplayer_fabric_manua.Common.Sorting.{insert, sorted}
use multiplayer_fabric_manua.Common.Text.{
  Text, before_first, codes, drop, ends_with, first_part, join_with, split, starts_with, take,
  text_eq,
}
use multiplayer_fabric_manua.PageMeta.Graph.{
  Graph, add, add_links, add_resolved, add_stems, is_page_link, is_skipped, page_info, project_root,
  scan, scan_page, scan_paths,
}
use multiplayer_fabric_manua.PageMeta.Graph.Keys.{scan-Distinct}
use multiplayer_fabric_manua.PageMeta.Graph.Targets.{IsProper, scan-IsProper}
use multiplayer_fabric_manua.PageMeta.Paths.{bare, posix, resolve, strip_ext, strip_one_of}
use multiplayer_fabric_manua.PageMeta.Patterns.{heading_re, in_link, link_re, stem_re, title_re}
use multiplayer_fabric_manua.PageMeta.Related.{
  has_slash, inbound, is_content, outbound, related, select, union,
}
use multiplayer_fabric_manua.PageMeta.Related.Symmetry.{LinksTo, related_iff, scan-related_symm}
use multiplayer_fabric_manua.PageMeta.Titles.{
  lstrip, parse_frontmatter, parse_title, strip, unquote,
}
use multiplayer_fabric_manua.PosixPath.{
  abspath, basename, dirname, ends_in_slash, join, join_all, keep_component, keep_components,
  leading_slashes, normpath, relative, relpath, split_last, strip_slashes,
}
use multiplayer_fabric_manua.Regex.{find_all, find_all_from, match_at, search_from, search_group}
use multiplayer_fabric_manua.Regex.Classes.{is_slug, is_space}
use multiplayer_fabric_manua.RfdCheck.FileTree.{File, ok, readable, unreadable}
use multiplayer_fabric_manua.PageMeta.Document.{Panflute, Metadata, finalize}
use multiplayer_fabric_manua.PageMeta.Document.Content.{Frames, finalize-Frames}
use multiplayer_fabric_manua.PageMeta.Related.{page_titled}
use multiplayer_fabric_manua.PageMeta.Related.Titled.{HasTitle, page_titled_iff}
use multiplayer_fabric_manua.PageMeta.Titles.Quotes.{unquote-quoted}

abbrev files : List (Text × File)
files =
    (
      codes "/w/rfd/a.md",
      readable true
          (codes "---\ntitle: \"Page A\"\n---\nsee [b](b.md#x) and [w](https://x.org/b.md)\n"),
    )
    ∷ (codes "/w/rfd/b.md", readable true (codes "# Page B\n"))
    ∷ (codes "/w/_site/c.md", readable true (codes "[b](../rfd/b.md)"))
    ∷ (codes "/w/index.md", unreadable)
    ∷ []

abbrev graph : Graph
graph =
    (codes "rfd/a", record { title = codes "Page A"; out = codes "rfd/b" ∷ [] })
    ∷ (codes "rfd/b", record { title = codes "Page B"; out = [] })
    ∷ []

scan-files : scan (codes "/w/rfd") (some (codes "/w")) files ≡ ok graph
unfolding abspath add add_links add_resolved add_stems bare basename before_first dirname drop
    ends_in_slash ends_with find_all find_all_from first_part heading_re in_link is_page_link
    is_skipped is_slug is_space join join_all join_with keep_component keep_components
    leading_slashes link_re lstrip match_at normpath page_info parse_frontmatter parse_title posix
    project_root relative relpath resolve scan scan_page scan_paths search_from search_group split
    split_last starts_with stem_re store strip strip_ext strip_one_of strip_slashes take text_eq
    title_re unquote
scan-files = refl

related_a : related graph (codes "rfd/a") ≡ codes "rfd/b" ∷ []
unfolding related outbound inbound union select is_content has_slash sorted insert lookup text_eq
related_a = refl

graph-Distinct : Distinct (keys graph)
graph-Distinct = scan-Distinct (codes "/w/rfd") (some (codes "/w")) files graph scan-files

scan-IsProper_example : IsProper (codes "rfd/a") (codes "rfd/b" ∷ [])
scan-IsProper_example =
    scan-IsProper (codes "/w/rfd") (some (codes "/w")) files graph scan-files (codes "rfd/a")
      (record { title = codes "Page A"; out = codes "rfd/b" ∷ [] }) (Memᴰ.head refl)

scan-related_symm_example : Memᴰ (codes "rfd/a") (related graph (codes "rfd/b"))
unfolding has_slash
scan-related_symm_example =
    scan-related_symm (codes "/w/rfd") (some (codes "/w")) files graph (codes "rfd/a")
      (codes "rfd/b") scan-files refl (Memᴰ.head refl) (rw related_a (Memᴰ.head refl))

related_iff_example : Memᴰ (codes "rfd/b") (related graph (codes "rfd/a")) ↔ (
    (LinksTo graph (codes "rfd/a") (codes "rfd/b") ⊎ LinksTo graph (codes "rfd/b") (codes "rfd/a"))
    × (codes "rfd/b" ≢ codes "rfd/a")
    × (has_slash (codes "rfd/b") ≡ true)
    × Memᴰ (codes "rfd/b") (keys graph))
related_iff_example = related_iff graph (codes "rfd/a") (codes "rfd/b") graph-Distinct

-- Elements as texts.
abbrev plain_text : Panflute
plain_text = record {
  Inline = Text;
  Block = Text;
  Item = Text;
  str = λ t. t;
  space = codes " ";
  link = λ t url. t;
  emph = λ l. join_with [] l;
  strong = λ t. t;
  para = λ l. join_with [] l;
  header = λ t level identifier. t;
  list_item = λ b. b;
  bullet_list = λ l. join_with [] l;
}

abbrev metadata : Metadata
metadata = record {
  tier = none;
  status = none;
  state = some (codes "published");
  scope = none;
  title = some (codes "Page A");
}

finalize-Frames_example :
    Frames plain_text (finalize plain_text (codes "/w/rfd") (some (codes "/w")) files metadata)
finalize-Frames_example =
    finalize-Frames plain_text (codes "/w/rfd") (some (codes "/w")) files metadata

page_titled_iff_example :
    ((k : Text) → page_titled (codes "Page B") graph ≡ some k → HasTitle (codes "Page B") graph k)
    × ((page_titled (codes "Page B") graph ≡ none)
        ↔ ((k : Text) → ¬ HasTitle (codes "Page B") graph k))
page_titled_iff_example = page_titled_iff (codes "Page B") graph

-- An empty field takes the next line.
empty_title :
    parse_title (codes "---\ntitle:\nstate: published\n---\n") (codes "a")
    ≡ codes "state: published"
unfolding parse_title parse_frontmatter title_re search_group search_from match_at starts_with drop
    before_first is_space lstrip strip unquote
empty_title = refl

unquote-quoted_example : unquote (codes "\"RFD 2001: \"x\"\"") ≡ codes "RFD 2001: \"x\""
unquote-quoted_example = unquote-quoted b'"' (codes "RFD 2001: \"x\"") refl
