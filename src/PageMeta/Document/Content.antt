-- ===== src/PageMeta/Document/Content.antt =====
-- What `finalize` of scripts/decision-meta.py does to the blocks of a page.
use mathlib.Core.List.{append_assoc, append-nil}
use multiplayer_fabric_manua.Common.{
  List, [], ◌∷◌, ◌++◌, Option, none, some, ◌≡◌, refl, sym, ap, ◌∙◌, map,
}
use multiplayer_fabric_manua.Common.Text.{Text}
use multiplayer_fabric_manua.PosixPath.{dirname}
use multiplayer_fabric_manua.RfdCheck.FileTree.{File, Outcome, ok, raised}
use multiplayer_fabric_manua.PageMeta.Graph.{Graph, scan}
use multiplayer_fabric_manua.PageMeta.Related.{page_titled, related}
use multiplayer_fabric_manua.PageMeta.Document.{
  Panflute, Metadata, head_line, breadcrumb, insert_head, on_top, related_blocks, related_item,
  navigate, at_page, with_graph, with_title, finalize,
}

module _ (pf : Panflute) where
  open pf use {Inline, Block}

  -- The change puts blocks before and after a page, the same ones whatever the page holds.
  abbrev pub Frames : (List Block → List Block) → Type 0
  Frames change =
      (before : List Block) × (after : List Block) × ((content : List Block)
        → change content ≡ before ++ (content ++ after))

  nothing : Frames (λ content. content)
  nothing = ([], [], λ content. sym (append-nil content))

  on_front : (b : Block) → Frames (λ content. b ∷ content)
  on_front b = (b ∷ [], [], λ content. ap (λ l. b ∷ l) (sym (append-nil content)))

  compose :
      (f g : List Block → List Block) → Frames f → Frames g → Frames (λ content. g (f content))
  compose f g (b, a, e) (b', a', e') =
      (b' ++ b, a ++ a', λ content. e' (f content) ∙ rw (e content) (simp append_assoc))

  insert_head-Frames : (head : List Inline) → Frames (insert_head pf head)
  insert_head-Frames [] = nothing
  insert_head-Frames (h ∷ head) = on_front (pf.para (h ∷ head))

  on_top-Frames : (crumb : Option Block) → Frames (on_top pf crumb)
  on_top-Frames none = nothing
  on_top-Frames (some b) = on_front b

  navigate-Frames :
      (cwd : Text) (graph : Graph) (title current : Text)
      → Frames (navigate pf cwd graph title current)
  unfolding navigate
  navigate-Frames cwd graph title current =
      let items = map (related_item pf cwd graph (dirname current)) (related graph current) in
      compose (λ content. content ++ related_blocks pf items)
        (on_top pf (breadcrumb pf current title)) ([], related_blocks pf items, λ content. refl)
        (on_top-Frames (breadcrumb pf current title))

  at_page-Frames :
      (cwd : Text) (graph : Graph) (title : Text) (current : Option Text)
      → Frames (at_page pf cwd graph title current)
  at_page-Frames cwd graph title none = nothing
  at_page-Frames cwd graph title (some current) = navigate-Frames cwd graph title current

  with_graph-Frames :
      (cwd title : Text) (graph : Outcome Graph) → Frames (with_graph pf cwd title graph)
  with_graph-Frames cwd title (raised e) = nothing
  with_graph-Frames cwd title (ok graph) = at_page-Frames cwd graph title (page_titled title graph)

  with_title-Frames :
      (cwd : Text) (graph : Outcome Graph) (title : Option Text)
      → Frames (with_title pf cwd graph title)
  with_title-Frames cwd graph none = nothing
  with_title-Frames cwd graph (some []) = nothing
  with_title-Frames cwd graph (some (c ∷ t)) = with_graph-Frames cwd (c ∷ t) graph

  -- On every branch, whether the scan raises or not, `finalize` leaves the blocks of the page as they
  -- are and in their order, and the blocks that it puts before and after them do not depend on them.
  pub finalize-Frames :
      (cwd : Text) (variable : Option Text) (paths : List (Text × File)) (m : Metadata)
      → Frames (finalize pf cwd variable paths m)
  unfolding finalize
  finalize-Frames cwd variable paths m =
      compose (insert_head pf (head_line pf m))
        (with_title pf cwd (scan cwd variable paths) m.title) (insert_head-Frames (head_line pf m))
        (with_title-Frames cwd (scan cwd variable paths) m.title)
