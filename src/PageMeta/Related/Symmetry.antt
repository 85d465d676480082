-- ===== src/PageMeta/Related/Symmetry.antt =====
-- `related` of scripts/decision-meta.py as a relation between the pages of a scan.
use mathlib.Core.List.{Memᴰ}
use multiplayer_fabric_manua.Common.{
  true, Option, List, [], ◌≡◌, ◌≢◌, arith, ◌↔◌, ◌⊎◌, inl, inr, sym,
}
use multiplayer_fabric_manua.Common.Tests.{Option-cases}
use multiplayer_fabric_manua.Common.Lists.{Distinct}
use multiplayer_fabric_manua.Common.Text.{Text, text_eq_iff, mem_iff}
use multiplayer_fabric_manua.Common.Dict.{lookup, keys, lookup-mem, mem-lookup}
use multiplayer_fabric_manua.Common.Sorting.{mem-sorted, sorted-mem}
use multiplayer_fabric_manua.RfdCheck.FileTree.{File, ok}
use multiplayer_fabric_manua.PageMeta.Graph.{Graph, scan}
use multiplayer_fabric_manua.PageMeta.Graph.Keys.{scan-Distinct}
use multiplayer_fabric_manua.PageMeta.Related.{
  outbound, inbound, union, has_slash, is_content, related,
}
use multiplayer_fabric_manua.PageMeta.Related.Members.{
  mem-select, select-mem, mem-union, mem-inbound, inbound-mem,
}

-- A page links to another: the second is among the targets of the first.
abbrev pub LinksTo : Graph → Text → Text → Type 0
LinksTo graph a b = Memᴰ b (outbound graph a)

inbound_iff :
    (graph : Graph) (k current : Text)
    → Distinct (keys graph)
    → Memᴰ k (inbound graph current) ↔ LinksTo graph k current
unfolding outbound
inbound_iff graph k current d = (there, back)
  where
    there : Memᴰ k (inbound graph current) → LinksTo graph k current
    there m =
        let (info, r, q) = mem-inbound graph k current m in
        unfold outbound in rw (lookup-mem k info graph d r) q

    back : LinksTo graph k current → Memᴰ k (inbound graph current)
    back l = elim (Option-cases (lookup k graph)) [
      | inl e ↦ let none_out : Memᴰ current [] = unfold outbound in rw e at l in elim none_out [ ]
      | inr (info, e) ↦
          inbound-mem graph k current info (mem-lookup k info graph e)
            (unfold outbound in rw e at l)
    ]

is_content_iff :
    (graph : Graph) (current k : Text)
    → (is_content graph current k ≡ true)
      ↔ ((k ≢ current) × (has_slash k ≡ true) × Memᴰ k (keys graph))
unfolding is_content
is_content_iff graph current k = grind (arith, text_eq_iff k current, mem_iff k (keys graph))

-- A page is listed as related exactly when it is another page of the scan, in a folder, and one of
-- the two links to the other, provided no page is scanned twice.
pub related_iff :
    (graph : Graph) (current k : Text)
    → Distinct (keys graph)
    → Memᴰ k (related graph current) ↔ (
        (LinksTo graph current k ⊎ LinksTo graph k current)
        × (k ≢ current)
        × (has_slash k ≡ true)
        × Memᴰ k (keys graph))
unfolding related
related_iff graph current k d = (there, back)
  where
    both : List Text
    both = union (outbound graph current) (inbound graph current)

    there :
        Memᴰ k (related graph current)
        → (LinksTo graph current k ⊎ LinksTo graph k current)
          × (k ≢ current)
          × (has_slash k ≡ true)
          × Memᴰ k (keys graph)
    there m =
        let (r, c) = mem-select (is_content graph current) k both (mem-sorted k _ m) in
        let side : LinksTo graph current k ⊎ LinksTo graph k current =
          elim ((mem-union k _ _).0 r) [
            | inl o ↦ inl o
            | inr i ↦ inr ((inbound_iff graph k current d).0 i)
          ] in
        let (ne, slash, scanned) = (is_content_iff graph current k).0 c in
        (side, ne, slash, scanned)

    back :
        (LinksTo graph current k ⊎ LinksTo graph k current)
          × (k ≢ current)
          × (has_slash k ≡ true)
          × Memᴰ k (keys graph)
        → Memᴰ k (related graph current)
    back (side, ne, slash, scanned) =
        let m : Memᴰ k both = elim side [
          | inl o ↦ (mem-union k _ _).1 (inl o)
          | inr i ↦ (mem-union k _ _).1 (inr ((inbound_iff graph k current d).1 i))
        ] in
        sorted-mem k _ (
          select-mem (is_content graph current) k both m
            ((is_content_iff graph current k).1 (ne, slash, scanned)))

related-symm :
    (graph : Graph) (a b : Text)
    → Distinct (keys graph)
    → has_slash a ≡ true
    → Memᴰ a (keys graph)
    → Memᴰ b (related graph a)
    → Memᴰ a (related graph b)
related-symm graph a b d slash there m =
    let (side, ne, _, _) = (related_iff graph a b d).0 m in
    let other : LinksTo graph b a ⊎ LinksTo graph a b = elim side [
      | inl l ↦ inr l
      | inr l ↦ inl l
    ] in
    (related_iff graph b a d).1 (other, (λ e. ne (sym e)), slash, there)

-- In the graph of a scan that returns, being related is symmetric: if `b` is listed on the page `a`, which is a
-- page of the scan in a folder, then `a` is listed on the page `b`.
pub scan-related_symm :
    (cwd : Text) (variable : Option Text) (paths : List (Text × File)) (graph : Graph) (a b : Text)
    → scan cwd variable paths ≡ ok graph
    → has_slash a ≡ true
    → Memᴰ a (keys graph)
    → Memᴰ b (related graph a)
    → Memᴰ a (related graph b)
scan-related_symm cwd variable paths graph a b e =
    related-symm graph a b (scan-Distinct cwd variable paths graph e)
