-- ===== src/PageMeta/Related/Order.antt =====
-- `related` of scripts/decision-meta.py on graphs that were built from the same files in another
-- order.
use mathlib.Core.List.{Memᴰ}
use multiplayer_fabric_manua.Common.{
  Bool, List, [], ◌∷◌, Option, none, ◌≡◌, ◌↔◌, ◌⊎◌, inl, inr, arith, sym, ◌∙◌,
}
use multiplayer_fabric_manua.Common.Tests.{Bool-cases, Option-cases, Option-ext}
use multiplayer_fabric_manua.Common.Lists.{Distinct, Distinct-concat}
use multiplayer_fabric_manua.Common.Text.{Text, mem, mem_iff}
use multiplayer_fabric_manua.Common.Dict.{lookup, keys, lookup-none, mem-lookup}
use multiplayer_fabric_manua.Common.Sorting.{sorted-InOrder}
use multiplayer_fabric_manua.Common.Sorting.Unique.{InOrder-unique, sorted-Distinct}
use multiplayer_fabric_manua.RfdCheck.FileTree.{File, ok}
use multiplayer_fabric_manua.PageMeta.Graph.{Graph, Info, add, scan, project_root}
use multiplayer_fabric_manua.PageMeta.Graph.Keys.{scan-Distinct}
use multiplayer_fabric_manua.PageMeta.Graph.Targets.{scan-IsProper}
use multiplayer_fabric_manua.PageMeta.Graph.Entries.{HasPage, IsUnambiguous, lookup-scan}
use multiplayer_fabric_manua.PageMeta.Related.{
  outbound, inbound, union, is_content, select, related,
}
use multiplayer_fabric_manua.PageMeta.Related.Members.{mem-select}
use multiplayer_fabric_manua.PageMeta.Related.Symmetry.{LinksTo, related_iff}

add-Distinct : (k : Text) (l : List Text) → Distinct l → Distinct (add k l)
unfolding add
add-Distinct k l d = elim (Bool-cases (mem k l)) [
  | inl e ↦ rw e d
  | inr e ↦ rw e (Distinct-concat l k (λ m. ground (arith, (mem_iff k l).1 m)) d)
]

union-Distinct : (a b : List Text) → Distinct a → Distinct (union a b)
unfolding union
union-Distinct a [] d = d
union-Distinct a (k ∷ b) d = union-Distinct (add k a) b (add-Distinct k a d)

select-Distinct : (p : Text → Bool) (l : List Text) → Distinct l → Distinct (select p l)
unfolding select
select-Distinct p [] d = tt
select-Distinct p (k ∷ l) (f, d) = elim (Bool-cases (p k)) [
  | inl e ↦ rw e ((λ m. f (mem-select p k l m).0), select-Distinct p l d)
  | inr e ↦ rw e (select-Distinct p l d)
]

-- A graph in which no key stands twice, and no page has a target twice.
abbrev HasSets : Graph → Type 0
HasSets graph =
    Distinct (keys graph)
    × ((k : Text) (info : Info) → Memᴰ {A = Text × Info} (k, info) graph → Distinct info.out)

scan-HasSets :
    (cwd : Text) (variable : Option Text) (paths : List (Text × File)) (graph : Graph)
    → scan cwd variable paths ≡ ok graph
    → HasSets graph
scan-HasSets cwd variable paths graph e = (
  scan-Distinct cwd variable paths graph e,
  λ k info m. let (a, b, d, i) = scan-IsProper cwd variable paths graph e k info m in d,
)

outbound-Distinct : (graph : Graph) (k : Text) → HasSets graph → Distinct (outbound graph k)
unfolding outbound
outbound-Distinct graph k (d, sets) = elim (Option-cases (lookup k graph)) [
  | inl e ↦ rw e tt
  | inr (info, e) ↦ rw e (sets k info (mem-lookup k info graph e))
]

related-Distinct :
    (graph : Graph) (current : Text) → HasSets graph → Distinct (related graph current)
unfolding related
related-Distinct graph current h = sorted-Distinct _ (
    select-Distinct (is_content graph current) _ (
      union-Distinct (outbound graph current) (inbound graph current)
        (outbound-Distinct graph current h)))

-- Two graphs say the same of every key.
abbrev Agrees : Graph → Graph → Type 0
Agrees graph graph' = (k : Text) → lookup k graph ≡ lookup k graph'

LinksTo-Agrees :
    (graph graph' : Graph) (a b : Text)
    → Agrees graph graph'
    → LinksTo graph a b
    → LinksTo graph' a b
unfolding outbound
LinksTo-Agrees graph graph' a b same l = rw (← same a) l

keys-Agrees :
    (graph graph' : Graph) (k : Text)
    → Agrees graph graph'
    → Memᴰ k (keys graph)
    → Memᴰ k (keys graph')
keys-Agrees graph graph' k same m = elim (Bool-cases (mem k (keys graph'))) [
  | inl e ↦ (mem_iff k (keys graph')).0 e
  | inr e ↦
      let gone : lookup k graph' ≡ none =
        (lookup-none k graph').1 (λ m'. ground (arith, (mem_iff k (keys graph')).1 m')) in
      absurd ((lookup-none k graph).0 (same k ∙ gone) m)
]

related-member :
    (graph graph' : Graph) (current k : Text)
    → HasSets graph
    → HasSets graph'
    → Agrees graph graph'
    → Memᴰ k (related graph current)
    → Memᴰ k (related graph' current)
related-member graph graph' current k h h' same m =
    let (side, ne, slash, there) = (related_iff graph current k h.0).0 m in
    let side' : LinksTo graph' current k ⊎ LinksTo graph' k current = elim side [
      | inl l ↦ inl (LinksTo-Agrees graph graph' current k same l)
      | inr l ↦ inr (LinksTo-Agrees graph graph' k current same l)
    ] in
    (related_iff graph' current k h'.0).1 (side', ne, slash, keys-Agrees graph graph' k same there)

related-Agrees :
    (graph graph' : Graph) (current : Text)
    → HasSets graph
    → HasSets graph'
    → Agrees graph graph'
    → related graph current ≡ related graph' current
related-Agrees graph graph' current h h' same =
    InOrder-unique (related graph current) (related graph' current)
      (unfold related in sorted-InOrder _) (unfold related in sorted-InOrder _)
      (related-Distinct graph current h) (related-Distinct graph' current h')
      (λ k. (
        related-member graph graph' current k h h' same,
        related-member graph' graph current k h' h (λ x. sym (same x)),
      ))

-- The same files, in some order.
abbrev pub SameFiles : List (Text × File) → List (Text × File) → Type 0
SameFiles paths paths' = (f : Text × File) → Memᴰ f paths ↔ Memᴰ f paths'

HasPage-SameFiles :
    (cwd root : Text) (paths paths' : List (Text × File)) (k : Text) (info : Info)
    → SameFiles paths paths'
    → HasPage cwd root paths k info
    → HasPage cwd root paths' k info
HasPage-SameFiles cwd root paths paths' k info same (f, text, m, p, q) =
    (f, text, (same f).0 m, p, q)

-- The related pages do not depend on the order in which the scan goes through the files: two scans
-- of the same files that return give one list for each page, when no two pages with one key say
-- different things.
pub related-SameFiles :
    (cwd : Text) (variable : Option Text) (paths paths' : List (Text × File)) (graph graph' : Graph)
    (current : Text)
    → SameFiles paths paths'
    → IsUnambiguous cwd variable paths
    → scan cwd variable paths ≡ ok graph
    → scan cwd variable paths' ≡ ok graph'
    → related graph current ≡ related graph' current
related-SameFiles cwd variable paths paths' graph graph' current same unique e e' =
    related-Agrees graph graph' current (scan-HasSets cwd variable paths graph e)
      (scan-HasSets cwd variable paths' graph' e') agrees
  where
    root : Text
    root = project_root variable

    back : SameFiles paths' paths
    back f = ((same f).1, (same f).0)

    unique' : IsUnambiguous cwd variable paths'
    unique' k i j h h' =
        unique k i j (HasPage-SameFiles cwd root paths' paths k i back h)
          (HasPage-SameFiles cwd root paths' paths k j back h')

    agrees : Agrees graph graph'
    agrees k = Option-ext _ _ λ info. (
      λ q. (lookup-scan cwd variable paths' graph' k info unique' e').1 (
          HasPage-SameFiles cwd root paths paths' k info same
            ((lookup-scan cwd variable paths graph k info unique e).0 q)),
      λ q. (lookup-scan cwd variable paths graph k info unique e).1 (
          HasPage-SameFiles cwd root paths' paths k info back
            ((lookup-scan cwd variable paths' graph' k info unique' e').0 q)),
    )
