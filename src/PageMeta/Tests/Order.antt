-- ===== src/PageMeta/Tests/Order.antt =====
-- Scans of the same files in two orders, and the theorems on them.
use mathlib.Core.List.{Memᴰ}
use multiplayer_fabric_manua.Common.{true, List, [], ◌∷◌, some, ◌≡◌, ◌↔◌, ◌⊎◌, refl}
use multiplayer_fabric_manua.Common.Text.{
  Text, codes, distinct, Distinct-distinct, text_eq, before_first, drop, ends_with, first_part,
  join_with, split, starts_with, take,
}
use multiplayer_fabric_manua.Common.Dict.{lookup, store}
use multiplayer_fabric_manua.RfdCheck.FileTree.{File, readable, unreadable, ok}
use multiplayer_fabric_manua.PageMeta.Titles.{
  parse_frontmatter, lstrip, parse_title, strip, unquote,
}
use multiplayer_fabric_manua.PageMeta.Patterns.{link_re, stem_re, heading_re, in_link, title_re}
use multiplayer_fabric_manua.PageMeta.Graph.{
  Graph, scan, page_info, project_root, add, add_links, add_resolved, add_stems, is_page_link,
  is_skipped, scan_page, scan_paths,
}
use multiplayer_fabric_manua.PageMeta.Graph.Entries.{HasPage, IsUnambiguous, lookup-scan}
use multiplayer_fabric_manua.PageMeta.Graph.Unambiguous.{keys_at, Distinct-IsUnambiguous}
use multiplayer_fabric_manua.PageMeta.Graph.Links.{LinkTo, StemTo, mem-page_info}
use multiplayer_fabric_manua.PageMeta.Related.{related}
use multiplayer_fabric_manua.PageMeta.Related.Order.{related-SameFiles}
use multiplayer_fabric_manua.Regex.{find_all, find_all_from, match_at, search_from, search_group}
use multiplayer_fabric_manua.PageMeta.Tests.{files, graph, scan-files}
use multiplayer_fabric_manua.PageMeta.Paths.{bare, posix, resolve, strip_ext, strip_one_of}
use multiplayer_fabric_manua.PosixPath.{
  abspath, basename, dirname, ends_in_slash, join, join_all, keep_component, keep_components,
  leading_slashes, normpath, relative, relpath, split_last, strip_slashes,
}
use multiplayer_fabric_manua.Regex.Classes.{is_slug, is_space}

swap_first :
    (a b : Text × File) (l : List (Text × File)) (f : Text × File)
    → Memᴰ f (a ∷ b ∷ l)
    → Memᴰ f (b ∷ a ∷ l)
swap_first a b l f (Memᴰ.head q) = Memᴰ.tail (Memᴰ.head q)
swap_first a b l f (Memᴰ.tail (Memᴰ.head q)) = Memᴰ.head q
swap_first a b l f (Memᴰ.tail (Memᴰ.tail m)) = Memᴰ.tail (Memᴰ.tail m)

abbrev page_a : Text × File
page_a = (
  codes "/w/rfd/a.md",
  readable true
      (codes "---\ntitle: \"Page A\"\n---\nsee [b](b.md#x) and [w](https://x.org/b.md)\n"),
)

abbrev page_b : Text × File
page_b = (codes "/w/rfd/b.md", readable true (codes "# Page B\n"))

abbrev others : List (Text × File)
others =
    (codes "/w/_site/c.md", readable true (codes "[b](../rfd/b.md)"))
    ∷ (codes "/w/index.md", unreadable)
    ∷ []

abbrev swapped_graph : Graph
swapped_graph =
    (codes "rfd/b", record { title = codes "Page B"; out = [] })
    ∷ (codes "rfd/a", record { title = codes "Page A"; out = codes "rfd/b" ∷ [] })
    ∷ []

scan_swapped :
    scan (codes "/w/rfd") (some (codes "/w")) (page_b ∷ page_a ∷ others) ≡ ok swapped_graph
unfolding abspath add add_links add_resolved add_stems bare basename before_first dirname drop
    ends_in_slash ends_with find_all find_all_from first_part heading_re in_link is_page_link
    is_skipped is_slug is_space join join_all join_with keep_component keep_components
    leading_slashes link_re lstrip match_at normpath page_info parse_frontmatter parse_title posix
    project_root relative relpath resolve scan scan_page scan_paths search_from search_group split
    split_last starts_with stem_re store strip strip_ext strip_one_of strip_slashes take text_eq
    title_re unquote
scan_swapped = refl

files-IsUnambiguous : IsUnambiguous (codes "/w/rfd") (some (codes "/w")) files
unfolding abspath add add_links add_resolved add_stems bare basename before_first dirname drop
    ends_in_slash ends_with find_all find_all_from first_part heading_re in_link is_page_link
    is_skipped is_slug is_space join join_all join_with keep_component keep_components
    leading_slashes link_re lstrip match_at normpath page_info parse_frontmatter parse_title posix
    project_root relative relpath resolve scan scan_page scan_paths search_from search_group split
    split_last starts_with stem_re store strip strip_ext strip_one_of strip_slashes take text_eq
    title_re unquote distinct
files-IsUnambiguous =
    Distinct-IsUnambiguous (codes "/w/rfd") (some (codes "/w")) files
      (Distinct-distinct (keys_at (codes "/w/rfd") (project_root (some (codes "/w"))) files) refl)

related-SameFiles_example : related graph (codes "rfd/b") ≡ related swapped_graph (codes "rfd/b")
related-SameFiles_example =
    related-SameFiles (codes "/w/rfd") (some (codes "/w")) files (page_b ∷ page_a ∷ others) graph
      swapped_graph (codes "rfd/b")
      (λ f. (swap_first page_a page_b others f, swap_first page_b page_a others f))
      files-IsUnambiguous scan-files scan_swapped

lookup-scan_example :
    (lookup (codes "rfd/b") graph ≡ some (record { title = codes "Page B"; out = [] }))
    ↔ HasPage
        (codes "/w/rfd")
        (project_root (some (codes "/w")))
        files
        (codes "rfd/b")
        (record { title = codes "Page B"; out = [] })
lookup-scan_example =
    lookup-scan (codes "/w/rfd") (some (codes "/w")) files graph (codes "rfd/b")
      (record { title = codes "Page B"; out = [] }) files-IsUnambiguous scan-files

mem-page_info_example :
    Memᴰ (codes "rfd/b") (page_info (codes "rfd/a") (codes "see [b](b.md#x)")).out ↔ (
      LinkTo (codes "rfd/a") (find_all link_re (codes "see [b](b.md#x)")) (codes "rfd/b")
      ⊎ StemTo
          (codes "rfd/a")
          (find_all stem_re (parse_frontmatter (codes "see [b](b.md#x)")))
          (codes "rfd/b"))
mem-page_info_example = mem-page_info (codes "rfd/a") (codes "see [b](b.md#x)") (codes "rfd/b")
