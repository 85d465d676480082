-- ===== src/PageMeta/Related/Titled.antt =====
-- The page that `finalize` of scripts/decision-meta.py finds by its title.
use mathlib.Core.Path.{subst}
use mathlib.Core.List.{Memᴰ}
use multiplayer_fabric_manua.Common.{
  true, [], ◌∷◌, none, some, ◌≡◌, ◌↔◌, refl, sym, ap, arith, inl, inr,
}
use multiplayer_fabric_manua.Common.Tests.{Bool-cases}
use multiplayer_fabric_manua.Common.Text.{Text, text_eq, text_eq_iff}
use multiplayer_fabric_manua.PageMeta.Graph.{Graph, Info}
use multiplayer_fabric_manua.PageMeta.Related.{page_titled}

-- The graph has the page `k` under that title.
abbrev pub HasTitle : Text → Graph → Text → Type 0
HasTitle title graph k =
    (info : Info) × Memᴰ {A = Text × Info} (k, info) graph × (info.title ≡ title)

HasTitle-cons :
    (title : Text) (e : Text × Info) (graph : Graph) (k : Text)
    → HasTitle title graph k
    → HasTitle title (e ∷ graph) k
HasTitle-cons title e graph k (info, m, q) = (info, Memᴰ.tail m, q)

page_titled-HasTitle :
    (title : Text) (graph : Graph) (k : Text)
    → page_titled title graph ≡ some k
    → HasTitle title graph k
unfolding page_titled
page_titled-HasTitle title [] k e = cc
page_titled-HasTitle title ((j, info) ∷ graph) k e = elim (Bool-cases (text_eq info.title title)) [
  | inl h ↦
      let same : j ≡ k = ground arith in
      (info, Memᴰ.head (ap (λ x. (x, info)) (sym same)), (text_eq_iff info.title title).0 h)
  | inr h ↦ HasTitle-cons title (j, info) graph k (page_titled-HasTitle title graph k (rw h at e))
]

no_title :
    (title : Text) (graph : Graph)
    → page_titled title graph ≡ none
    → (k : Text) → ¬ HasTitle title graph k
unfolding page_titled
no_title title [] e k (info, m, q) = elim m [ ]
no_title title ((j, i) ∷ graph) e k (info, Memᴰ.head p, q) =
    let titled : i.title ≡ title = subst (λ (y : Text × Info). y.1.title ≡ title) p q in
    let h : text_eq i.title title ≡ true = (text_eq_iff i.title title).1 titled in
    absurd (ground arith)
no_title title ((j, i) ∷ graph) e k (info, Memᴰ.tail m, q) =
    elim (Bool-cases (text_eq i.title title)) [
      | inl h ↦ absurd (ground arith)
      | inr h ↦ no_title title graph (rw h at e) k (info, m, q)
    ]

none_titled :
    (title : Text) (graph : Graph)
    → ((k : Text) → ¬ HasTitle title graph k)
    → page_titled title graph ≡ none
unfolding page_titled
none_titled title [] n = refl
none_titled title ((j, i) ∷ graph) n = elim (Bool-cases (text_eq i.title title)) [
  | inl h ↦ absurd (n j (i, Memᴰ.head refl, (text_eq_iff i.title title).0 h))
  | inr h ↦ rw h (none_titled title graph (λ k t. n k (HasTitle-cons title (j, i) graph k t)))
]

-- The page that is found by a title has that title, and none is found exactly when no page has it.
pub page_titled_iff :
    (title : Text) (graph : Graph)
    → ((k : Text) → page_titled title graph ≡ some k → HasTitle title graph k)
      × ((page_titled title graph ≡ none) ↔ ((k : Text) → ¬ HasTitle title graph k))
page_titled_iff title graph =
    (page_titled-HasTitle title graph, (no_title title graph, none_titled title graph))
