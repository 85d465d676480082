-- ===== src/PageMeta/Graph/Targets.antt =====
-- The links that `_scan` of scripts/decision-meta.py collects for a page.
use mathlib.Core.Path.{subst}
use mathlib.Core.List.{Memᴰ}
use multiplayer_fabric_manua.Common.{
  false, List, [], ◌∷◌, ◌++◌, Option, none, some, refl, ◌≡◌, ◌≢◌, ◌⊎◌, inl, inr, arith, sym, ap,
  ◌∙◌,
}
use multiplayer_fabric_manua.Common.Tests.{Bool-cases}
use multiplayer_fabric_manua.Common.Lists.{Distinct, Distinct-concat, mem-append_inv}
use multiplayer_fabric_manua.Common.Text.{
  codes, starts_with, Text, text_eq, text_eq_iff, mem, mem_iff,
}
use multiplayer_fabric_manua.Common.Dict.{store}
use multiplayer_fabric_manua.Regex.{find_all}
use multiplayer_fabric_manua.PosixPath.{dirname}
use multiplayer_fabric_manua.RfdCheck.FileTree.{File, ok}
use multiplayer_fabric_manua.PageMeta.Patterns.{link_re, stem_re}
use multiplayer_fabric_manua.PosixPath.{join, normpath}
use multiplayer_fabric_manua.PageMeta.Paths.{strip_ext, bare, inside, resolve_bare, resolve}
use multiplayer_fabric_manua.PageMeta.Titles.{parse_frontmatter}
use multiplayer_fabric_manua.PageMeta.Graph.{
  Graph, Info, add, add_resolved, add_links, add_stems, is_page_link, page_info, scan,
}
use multiplayer_fabric_manua.PageMeta.Graph.Invariants.{scan-keeps}

-- A key does not lead out of the project.
abbrev pub IsInside : Text → Type 0
IsInside k = starts_with k (codes "..") ≡ false

-- The targets of a page: not the page itself, not the empty key, none of them twice, and none of
-- them out of the project.
abbrev pub IsProper : Text → List Text → Type 0
IsProper key out =
    (¬ Memᴰ key out) × (¬ Memᴰ [] out) × Distinct out × ((t : Text) → Memᴰ t out → IsInside t)

inside-IsInside : (joined k : Text) → inside joined ≡ some k → IsInside k
inside-IsInside joined k e = elim (Bool-cases (starts_with joined (codes ".."))) [
  | inl h ↦ absurd (ground arith)
  | inr h ↦
      let same : joined ≡ k = ground arith in subst (λ x. starts_with x (codes "..") ≡ false) same h
]

resolve_bare-IsInside :
    (from_dir target k : Text) → resolve_bare from_dir target ≡ some k → IsInside k
resolve_bare-IsInside from_dir [] k e = cc
resolve_bare-IsInside [] (c ∷ t) k e = inside-IsInside (normpath (c ∷ t)) k e
resolve_bare-IsInside (d ∷ from_dir) (c ∷ t) k e =
    inside-IsInside (normpath (join (d ∷ from_dir) (c ∷ t))) k e

resolve-IsInside : (from_dir target k : Text) → resolve from_dir target ≡ some k → IsInside k
unfolding resolve
resolve-IsInside from_dir target = resolve_bare-IsInside from_dir (strip_ext (bare target))

not_last : (x k : Text) (out : List Text) → x ≢ k → ¬ Memᴰ x out → ¬ Memᴰ x (out ++ k ∷ [])
not_last x k out ne h m = elim (mem-append_inv out m) [ inl r ↦ h r | inr r ↦ ne (only r) ]
  where
    only : Memᴰ x (k ∷ []) → x ≡ k
    only (Memᴰ.head e) = e
    only (Memᴰ.tail r) = elim r [ ]

add-IsProper :
    (key k : Text) (out : List Text)
    → key ≢ k
    → [] ≢ k
    → IsInside k
    → IsProper key out
    → IsProper key (add k out)
unfolding add
add-IsProper key k out ne ne' inside_k (a, b, d, i) = elim (Bool-cases (mem k out)) [
  | inl e ↦ rw e (a, b, d, i)
  | inr e ↦
      let fresh : ¬ Memᴰ k out = λ m. ground (arith, (mem_iff k out).1 m) in
      rw e (
        not_last key k out ne a,
        not_last [] k out ne' b,
        Distinct-concat out k fresh d,
        all_inside,
      )
]
  where
    last : (t : Text) → Memᴰ t (k ∷ []) → IsInside t
    last t (Memᴰ.head q) = subst IsInside (sym q) inside_k
    last t (Memᴰ.tail r) = elim r [ ]

    all_inside : (t : Text) → Memᴰ t (out ++ k ∷ []) → IsInside t
    all_inside t m = elim (mem-append_inv out m) [ inl r ↦ i t r | inr r ↦ last t r ]

add_resolved-IsProper :
    (key : Text) (found : Option Text) (out : List Text)
    → ((k : Text) → found ≡ some k → IsInside k)
    → IsProper key out
    → IsProper key (add_resolved key found out)
unfolding add_resolved
add_resolved-IsProper key none out i h = h
add_resolved-IsProper key (some []) out i h = h
add_resolved-IsProper key (some (c ∷ r)) out i h = elim (Bool-cases (text_eq (c ∷ r) key)) [
  | inl e ↦ rw e h
  | inr e ↦
      let other : key ≢ c ∷ r = λ q. ground (arith, (text_eq_iff (c ∷ r) key).1 (sym q)) in
      rw e (add-IsProper key (c ∷ r) out other (λ q. cc) (i (c ∷ r) refl) h)
]

add_links-IsProper :
    (key from_dir : Text) (targets out : List Text)
    → IsProper key out
    → IsProper key (add_links key from_dir targets out)
unfolding add_links
add_links-IsProper key from_dir [] out h = h
add_links-IsProper key from_dir (t ∷ ts) out h = elim (Bool-cases (is_page_link t)) [
  | inl e ↦ rw e (
      add_links-IsProper key from_dir ts _
        (add_resolved-IsProper key (resolve from_dir t) out (resolve-IsInside from_dir t) h))
  | inr e ↦ rw e (add_links-IsProper key from_dir ts out h)
]

add_stems-IsProper :
    (key from_dir : Text) (stems out : List Text)
    → IsProper key out
    → IsProper key (add_stems key from_dir stems out)
unfolding add_stems
add_stems-IsProper key from_dir [] out h = h
add_stems-IsProper key from_dir (t ∷ ts) out h =
    add_stems-IsProper key from_dir ts _
      (add_resolved-IsProper key (resolve from_dir t) out (resolve-IsInside from_dir t) h)

page_info-IsProper : (key text : Text) → IsProper key (page_info key text).out
unfolding page_info
page_info-IsProper key text =
    add_stems-IsProper key (dirname key) (find_all stem_re (parse_frontmatter text)) _ (
      add_links-IsProper key (dirname key) (find_all link_re text) []
        ((λ m. elim m [ ]), (λ m. elim m [ ]), tt, (λ t m. elim m [ ])))

-- An entry of a dictionary in which a value has been stored.
pub mem-store :
    (k j : Text) (v w : Info) (m : Graph)
    → Memᴰ {A = Text × Info} (j, w) (store k v m)
    → (◌≡◌ {A = Text × Info} (j, w) (k, v)) ⊎ Memᴰ {A = Text × Info} (j, w) m
unfolding store
mem-store k j v w [] r = inl (only r)
  where
    only : Memᴰ {A = Text × Info} (j, w) ((k, v) ∷ []) → ◌≡◌ {A = Text × Info} (j, w) (k, v)
    only (Memᴰ.head e) = e
    only (Memᴰ.tail r) = elim r [ ]
mem-store k j v w ((i, x) ∷ m) r = elim (Bool-cases (text_eq i k)) [
  | inl e ↦ replaced ((text_eq_iff i k).0 e) (rw e at r)
  | inr e ↦ later (rw e at r) (mem-store k j v w m)
]
  where
    replaced :
        i ≡ k
        → Memᴰ {A = Text × Info} (j, w) ((i, v) ∷ m)
        → (◌≡◌ {A = Text × Info} (j, w) (k, v)) ⊎ Memᴰ {A = Text × Info} (j, w) ((i, x) ∷ m)
    replaced q (Memᴰ.head e) = inl (e ∙ ap (λ y. (y, v)) q)
    replaced q (Memᴰ.tail r) = inr (Memᴰ.tail r)

    later :
        Memᴰ {A = Text × Info} (j, w) ((i, x) ∷ store k v m)
        → (Memᴰ {A = Text × Info} (j, w) (store k v m)
            → (◌≡◌ {A = Text × Info} (j, w) (k, v)) ⊎ Memᴰ {A = Text × Info} (j, w) m)
        → (◌≡◌ {A = Text × Info} (j, w) (k, v)) ⊎ Memᴰ {A = Text × Info} (j, w) ((i, x) ∷ m)
    later (Memᴰ.head e) h = inr (Memᴰ.head e)
    later (Memᴰ.tail r) h = elim (h r) [ inl q ↦ inl q | inr r' ↦ inr (Memᴰ.tail r') ]

abbrev AllProper : Graph → Type 0
AllProper graph = (k : Text) (info : Info) → Memᴰ (k, info) graph → IsProper k info.out

store-AllProper :
    (key text : Text) (graph : Graph)
    → AllProper graph
    → AllProper (store key (page_info key text) graph)
store-AllProper key text graph h k info m =
    elim (mem-store key k (page_info key text) info graph m) [
      | inl q ↦
          subst (λ (e : Text × Info). IsProper e.0 e.1.out) (sym q) (page_info-IsProper key text)
      | inr r ↦ h k info r
    ]

-- No page of a scan that returns links to itself or to the empty key, has a target twice, or has one
-- that begins with `..`.
pub scan-IsProper :
    (cwd : Text) (variable : Option Text) (paths : List (Text × File)) (graph : Graph)
    → scan cwd variable paths ≡ ok graph
    → (k : Text) (info : Info) → Memᴰ (k, info) graph
    → IsProper k info.out
scan-IsProper cwd variable paths graph =
    scan-keeps AllProper store-AllProper cwd variable paths graph (λ k info m. elim m [ ])
