-- ===== src/PageMeta/Document.antt =====
-- `_status_inlines`, `_breadcrumb` and `finalize` of scripts/decision-meta.py. The elements of
-- panflute are a parameter: constructors of blocks and inlines, which the filter only calls.
pub mod Content
pub mod Ways
pub mod Addresses
pub mod Readback
pub mod Status
use multiplayer_fabric_manua.Common.{ℕ, List, [], ◌∷◌, ◌++◌, Option, none, some, map}
use multiplayer_fabric_manua.Common.Tests.{if◌then◌else◌}
use multiplayer_fabric_manua.Common.Text.{Text, codes, text_eq, split, first_part}
use multiplayer_fabric_manua.Common.Dict.{lookup}
use multiplayer_fabric_manua.PosixPath.{dirname, relpath, is_empty}
use multiplayer_fabric_manua.Regex.{match_start, group_of}
use multiplayer_fabric_manua.RfdCheck.FileTree.{File, Outcome, ok, raised}
use multiplayer_fabric_manua.PageMeta.Patterns.{superseded_re}
use multiplayer_fabric_manua.PageMeta.Graph.{Graph, Info, scan}
use multiplayer_fabric_manua.PageMeta.Related.{page_titled, related, has_slash}

pub record Panflute : Type 1 where
  pub Inline : Type 0
  pub Block : Type 0
  pub Item : Type 0
  pub str : Text → Inline
  pub space : Inline
  pub link : Inline → Text → Inline
  pub emph : List Inline → Inline
  pub strong : Inline → Inline
  pub para : List Inline → Block
  pub header : Inline → ℕ → Text → Block
  pub list_item : Block → Item
  pub bullet_list : List Item → Block

-- `_SECTIONS`
unfoldable pub section_title : Text → Option Text
section_title seg =
    if text_eq seg (codes "rfd")
    then some (codes "RFDs")
    else if text_eq seg (codes "changelog")
    then some (codes "Changelog")
    else none

abbrev pub section_page_dir : Text
section_page_dir = codes "pages/"

-- `"../" * len([p for p in here.split("/") if p])`
unfoldable pub ups : List Text → Text
ups [] = []
ups (p ∷ ps) = let rest = ups ps in if is_empty p then rest else codes "../" ++ rest

-- The way from a page back to the root.
abbrev pub prefix_of : Text → Text
prefix_of current = ups (split b'/' (dirname current))

-- The address of the page `key` in a link of a page in the folder `here`.
abbrev pub way_to : Text → Text → Text → Text
way_to cwd here key = (if is_empty here then key else relpath cwd key here) ++ codes ".html"

-- The metadata that the filter reads, as text; none if it is missing or empty.
pub record Metadata : Type 0 where
  pub tier : Option Text
  pub status : Option Text
  pub state : Option Text
  pub scope : Option Text
  pub title : Option Text

abbrev title_of : Option Info → Text
title_of none = []
title_of (some info) = info.title

module _ (pf : Panflute) where
  open pf use {
    Inline, Block, Item, str, space, link, emph, strong, para, header, list_item, bullet_list,
  }

  abbrev superseded : Text → Option Text → List Inline
  superseded status none = str status ∷ []
  superseded status (some stem) =
      str (codes "superseded by") ∷ space ∷ link (str stem) (stem ++ codes ".html") ∷ []

  unfoldable pub status_inlines : Text → List Inline
  status_inlines status = superseded status (group_of (match_start superseded_re status))

  abbrev section_crumb : Text → Text → Option Text → List Inline
  section_crumb prefix seg none = []
  section_crumb prefix seg (some name) =
      link (str name) (prefix ++ (section_page_dir ++ (seg ++ codes ".html"))) ∷ []

  -- The crumbs with a separator between any two.
  unfoldable pub separated : List Inline → List Inline
  separated [] = []
  separated (c ∷ []) = c ∷ []
  separated (c ∷ d ∷ cs) = c ∷ space ∷ str (codes "›") ∷ space ∷ separated (d ∷ cs)

  unfoldable pub crumbs : Text → Text → List Inline
  crumbs current title =
      let prefix = prefix_of current in
      let seg = first_part b'/' current in
      link (str (codes "Manuals")) (prefix ++ codes "index.html")
        ∷ (if has_slash current then section_crumb prefix seg (section_title seg) else [])
      ++ str title ∷ []

  unfoldable pub breadcrumb : Text → Text → Option Block
  breadcrumb current title =
      if text_eq current (codes "index")
      then none
      else some (para (emph (separated (crumbs current title)) ∷ []))

  -- `add`: a field of the head line, behind a dot if it is not the first.
  unfoldable pub add_field : Text → List Inline → List Inline → List Inline
  add_field label parts [] = strong (str (label ++ codes ":")) ∷ space ∷ parts
  add_field label parts (h ∷ head) =
      (h ∷ head)
      ++ space ∷ str (codes "·") ∷ space ∷ strong (str (label ++ codes ":")) ∷ space ∷ parts

  abbrev with_field : Text → (Text → List Inline) → Option Text → List Inline → List Inline
  with_field label render none head = head
  with_field label render (some v) head = add_field label (render v) head

  abbrev plain : Text → List Inline
  plain v = str v ∷ []

  unfoldable pub head_line : Metadata → List Inline
  head_line m = with_field (codes "Scope") plain m.scope (
      with_field (codes "State") plain m.state (
        with_field (codes "Status") status_inlines m.status
          (with_field (codes "Tier") plain m.tier [])))

  abbrev pub insert_head : List Inline → List Block → List Block
  insert_head [] content = content
  insert_head (h ∷ head) content = para (h ∷ head) ∷ content

  -- The link from the page in `here` to a related page.
  unfoldable pub related_item : Text → Graph → Text → Text → Item
  related_item cwd graph here key =
      list_item (para (link (str (title_of (lookup key graph))) (way_to cwd here key) ∷ []))

  abbrev pub related_blocks : List Item → List Block
  related_blocks [] = []
  related_blocks (i ∷ items) =
      header (str (codes "Related")) 2 (codes "related") ∷ bullet_list (i ∷ items) ∷ []

  abbrev pub on_top : Option Block → List Block → List Block
  on_top none content = content
  on_top (some b) content = b ∷ content

  unfoldable pub navigate : Text → Graph → Text → Text → List Block → List Block
  navigate cwd graph title current content =
      let items = map (related_item cwd graph (dirname current)) (related graph current) in
      on_top (breadcrumb current title) (content ++ related_blocks items)

  abbrev pub at_page : Text → Graph → Text → Option Text → List Block → List Block
  at_page cwd graph title none content = content
  at_page cwd graph title (some current) content = navigate cwd graph title current content

  -- `except Exception: return`: what the scan raises leaves the head alone.
  abbrev pub with_graph : Text → Text → Outcome Graph → List Block → List Block
  with_graph cwd title (raised e) content = content
  with_graph cwd title (ok graph) content =
      at_page cwd graph title (page_titled title graph) content

  abbrev pub with_title : Text → Outcome Graph → Option Text → List Block → List Block
  with_title cwd graph none content = content
  with_title cwd graph (some []) content = content
  with_title cwd graph (some (c ∷ t)) content = with_graph cwd (c ∷ t) graph content

  unfoldable pub finalize :
      Text → Option Text → List (Text × File) → Metadata → List Block → List Block
  finalize cwd variable paths m content =
      with_title cwd (scan cwd variable paths) m.title (insert_head (head_line m) content)
