-- ===== src/PageMeta/Graph/Entries.antt =====
-- The pages behind the graph that `_scan` of scripts/decision-meta.py returns.
use mathlib.Core.Path.{subst}
use mathlib.Core.List.{Memᴰ}
use multiplayer_fabric_manua.Common.{
  true, false, List, [], ◌∷◌, Option, some, ◌≡◌, ◌↔◌, ◌⊎◌, inl, inr, arith, refl, sym, ap, ◌∙◌,
}
use multiplayer_fabric_manua.Common.Tests.{Bool-cases}
use multiplayer_fabric_manua.Common.Text.{Text}
use multiplayer_fabric_manua.Common.Dict.{
  store-keys_other, store-keys_self, keys-mem, keys, store, lookup, lookup-mem, mem-lookup,
}
use multiplayer_fabric_manua.PosixPath.{relpath}
use multiplayer_fabric_manua.RfdCheck.FileTree.{File, unreadable, readable, ok}
use multiplayer_fabric_manua.RfdCheck.FileTree.Outcomes.{Outcome-cases, ok-injective}
use multiplayer_fabric_manua.PageMeta.Paths.{strip_ext, posix}
use multiplayer_fabric_manua.PageMeta.Graph.{
  Graph, Info, is_skipped, page_info, scan_page, scan_paths, scan, project_root,
}
use multiplayer_fabric_manua.PageMeta.Graph.Keys.{scan-Distinct}
use multiplayer_fabric_manua.PageMeta.Graph.Targets.{mem-store}

abbrev Entry : Type 0
Entry = Text × Info

module _ (cwd root : Text) where
  abbrev pub key_at : Text → Text
  key_at path = strip_ext (posix (relpath cwd path root))

  -- A file that is a page of the site: it is not skipped and can be read, and it has this key and
  -- this text.
  abbrev pub IsPage : Text × File → Text → Text → Type 0
  IsPage f key text =
      (key ≡ key_at f.0) × (is_skipped (key_at f.0) ≡ false) × (f.1 ≡ readable true text)

  -- One of the files is a page with this key and this information.
  abbrev pub HasPage : List (Text × File) → Text → Info → Type 0
  HasPage paths k info =
      (f : Text × File) × (text : Text) × Memᴰ f paths × IsPage f k text × (info ≡ page_info k text)

  later_page :
      (f : Text × File) (paths : List (Text × File)) (k : Text) (info : Info)
      → HasPage paths k info
      → HasPage (f ∷ paths) k info
  later_page f paths k info (g, text, m, p, q) = (g, text, Memᴰ.tail m, p, q)

  -- An entry of the graph was there before, or comes from a page.
  abbrev Known : List (Text × File) → Graph → Text → Info → Type 0
  Known paths graph k info = Memᴰ {A = Entry} (k, info) graph ⊎ HasPage paths k info

  later-Known :
      (f : Text × File) (paths : List (Text × File)) (graph : Graph) (k : Text) (info : Info)
      → Known paths graph k info
      → Known (f ∷ paths) graph k info
  later-Known f paths graph k info (inl m) = inl m
  later-Known f paths graph k info (inr h) = inr (later_page f paths k info h)

  stored-Known :
      (path text : Text) (paths : List (Text × File)) (graph : Graph) (k : Text) (info : Info)
      → is_skipped (key_at path) ≡ false
      → Known paths (store (key_at path) (page_info (key_at path) text) graph) k info
      → Known ((path, readable true text) ∷ paths) graph k info
  stored-Known path text paths graph k info s (inr h) =
      inr (later_page (path, readable true text) paths k info h)
  stored-Known path text paths graph k info s (inl m) =
      elim (mem-store (key_at path) k (page_info (key_at path) text) info graph m) [
        | inr r ↦ inl r
        | inl q ↦
            let same : k ≡ key_at path = ap (λ (x : Entry). x.0) q in
            let value : info ≡ page_info (key_at path) text = ap (λ (x : Entry). x.1) q in
            inr (
              (path, readable true text),
              text,
              Memᴰ.head refl,
              (same, s, refl),
              value ∙ ap (λ x. page_info x text) (sym same),
            )
      ]

  scan_paths-Known :
      (paths : List (Text × File)) (graph graph' : Graph) (k : Text) (info : Info)
      → scan_paths cwd root paths graph ≡ ok graph'
      → Memᴰ {A = Entry} (k, info) graph'
      → Known paths graph k info
  unfolding scan_paths scan_page
  scan_paths-Known [] graph graph' k info e m =
      inl (subst (λ g. Memᴰ {A = Entry} (k, info) g) (sym (ok-injective e)) m)
  scan_paths-Known ((path, unreadable) ∷ rest) graph graph' k info e m =
      later-Known (path, unreadable) rest graph k info
        (elim (Bool-cases (is_skipped (key_at path))) [
          | inl s ↦ scan_paths-Known rest graph graph' k info (rw s at e) m
          | inr s ↦ scan_paths-Known rest graph graph' k info (rw s at e) m
        ])
  scan_paths-Known ((path, readable false text) ∷ rest) graph graph' k info e m =
      later-Known (path, readable false text) rest graph k info
        (elim (Bool-cases (is_skipped (key_at path))) [
          | inl s ↦ scan_paths-Known rest graph graph' k info (rw s at e) m
          | inr s ↦ absurd (ground arith)
        ])
  scan_paths-Known ((path, readable true text) ∷ rest) graph graph' k info e m =
      elim (Bool-cases (is_skipped (key_at path))) [
        | inl s ↦
            later-Known (path, readable true text) rest graph k info
              (scan_paths-Known rest graph graph' k info (rw s at e) m)
        | inr s ↦ stored-Known path text rest graph k info s (
            scan_paths-Known rest (store (key_at path) (page_info (key_at path) text) graph) graph'
              k info (rw s at e) m)
      ]

  -- No key is lost, and each page has its key.
  scan_paths-keys :
      (paths : List (Text × File)) (graph graph' : Graph) (k : Text)
      → scan_paths cwd root paths graph ≡ ok graph'
      → Memᴰ k (keys graph)
      → Memᴰ k (keys graph')
  unfolding scan_paths scan_page
  scan_paths-keys [] graph graph' k e m = subst (λ g. Memᴰ k (keys g)) (ok-injective e) m
  scan_paths-keys ((path, unreadable) ∷ rest) graph graph' k e m =
      elim (Bool-cases (is_skipped (key_at path))) [
        | inl s ↦ scan_paths-keys rest graph graph' k (rw s at e) m
        | inr s ↦ scan_paths-keys rest graph graph' k (rw s at e) m
      ]
  scan_paths-keys ((path, readable false text) ∷ rest) graph graph' k e m =
      elim (Bool-cases (is_skipped (key_at path))) [
        | inl s ↦ scan_paths-keys rest graph graph' k (rw s at e) m
        | inr s ↦ absurd (ground arith)
      ]
  scan_paths-keys ((path, readable true text) ∷ rest) graph graph' k e m =
      elim (Bool-cases (is_skipped (key_at path))) [
        | inl s ↦ scan_paths-keys rest graph graph' k (rw s at e) m
        | inr s ↦
            scan_paths-keys rest (store (key_at path) (page_info (key_at path) text) graph) graph' k
              (rw s at e) (store-keys_other (key_at path) k (page_info (key_at path) text) graph m)
      ]

  scan_paths-rest :
      (f : Text × File) (rest : List (Text × File)) (graph graph' : Graph)
      → scan_paths cwd root (f ∷ rest) graph ≡ ok graph'
      → (mid : Graph) × (scan_paths cwd root rest mid ≡ ok graph')
  unfolding scan_paths
  scan_paths-rest (path, file) rest graph graph' e = elim (Bool-cases (is_skipped (key_at path))) [
    | inl s ↦ (graph, rw s at e)
    | inr s ↦ elim (Outcome-cases (scan_page (key_at path) file graph)) [
      | inl (mid, q) ↦ (mid, rw (s, q) at e)
      | inr (x, q) ↦ absurd (ground arith)
    ]
  ]

  page-keys :
      (paths : List (Text × File)) (f : Text × File) (graph graph' : Graph) (k text : Text)
      → scan_paths cwd root paths graph ≡ ok graph'
      → Memᴰ f paths
      → IsPage f k text
      → Memᴰ k (keys graph')
  unfolding scan_paths scan_page
  page-keys [] f graph graph' k text e m p = elim m [ ]
  page-keys (g ∷ rest) f graph graph' k text e (Memᴰ.head q) (same, s, there) =
      let at : f.0 ≡ g.0 = ap (λ (x : Text × File). x.0) q in
      let s' : is_skipped (key_at g.0) ≡ false = rw (← at) s in
      let there' : g.1 ≡ readable true text = sym (ap (λ (x : Text × File). x.1) q) ∙ there in
      let e' = rw (s', there') at e in
      scan_paths-keys rest (store (key_at g.0) (page_info (key_at g.0) text) graph) graph' k e' (
        subst (λ x. Memᴰ x (keys (store (key_at g.0) (page_info (key_at g.0) text) graph)))
          (sym (same ∙ ap key_at at))
          (store-keys_self (key_at g.0) (page_info (key_at g.0) text) graph))
  page-keys (g ∷ rest) f graph graph' k text e (Memᴰ.tail m) p =
      let (mid, e') = scan_paths-rest g rest graph graph' e in
      page-keys rest f mid graph' k text e' m p

-- Two files that are pages under one key have the same title and links.
abbrev pub IsUnambiguous : Text → Option Text → List (Text × File) → Type 0
IsUnambiguous cwd variable paths =
    (k : Text) (i j : Info)
    → HasPage cwd (project_root variable) paths k i
    → HasPage cwd (project_root variable) paths k j
    → i ≡ j

-- What the scan has under a key is what the pages say, whatever the order of the files, when no two
-- pages with one key say different things.
pub lookup-scan :
    (cwd : Text) (variable : Option Text) (paths : List (Text × File)) (graph : Graph) (k : Text)
    (info : Info)
    → IsUnambiguous cwd variable paths
    → scan cwd variable paths ≡ ok graph
    → (lookup k graph ≡ some info) ↔ HasPage cwd (project_root variable) paths k info
unfolding scan
lookup-scan cwd variable paths graph k info unique e = (there, back)
  where
    of_page :
        (i : Info) → Memᴰ {A = Entry} (k, i) graph → HasPage cwd (project_root variable) paths k i
    of_page i m =
        elim (scan_paths-Known cwd (project_root variable) paths [] graph k i (unfold scan in e)
          m) [ inl r ↦ elim r [ ] | inr h ↦ h ]

    there : lookup k graph ≡ some info → HasPage cwd (project_root variable) paths k info
    there q = of_page info (mem-lookup k info graph q)

    back : HasPage cwd (project_root variable) paths k info → lookup k graph ≡ some info
    back (f, text, m, p, q) =
        let there_is =
          page-keys cwd (project_root variable) paths f [] graph k text (unfold scan in e) m p in
        let (i, r) = keys-mem k graph there_is in
        let same : i ≡ info = unique k i info (of_page i r) (f, text, m, p, q) in
        lookup-mem k i graph (scan-Distinct cwd variable paths graph e) r ∙ ap some same
