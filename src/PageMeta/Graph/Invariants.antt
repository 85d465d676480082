-- ===== src/PageMeta/Graph/Invariants.antt =====
-- Invariants of the loop of `_scan` of scripts/decision-meta.py over the files.
use mathlib.Core.Path.{subst}
use multiplayer_fabric_manua.Common.{true, false, List, [], ◌∷◌, Option, ◌≡◌, arith, inl, inr}
use multiplayer_fabric_manua.Common.Tests.{Bool-cases}
use multiplayer_fabric_manua.Common.Text.{Text}
use multiplayer_fabric_manua.Common.Dict.{store}
use multiplayer_fabric_manua.PosixPath.{relpath}
use multiplayer_fabric_manua.RfdCheck.FileTree.{File, unreadable, readable, ok}
use multiplayer_fabric_manua.RfdCheck.FileTree.Outcomes.{Outcome-cases, ok-injective}
use multiplayer_fabric_manua.PageMeta.Paths.{strip_ext, posix}
use multiplayer_fabric_manua.PageMeta.Graph.{
  Graph, is_skipped, page_info, scan_page, scan_paths, scan, project_root,
}

-- What holds of the empty graph, and still holds when a page is stored, holds of what the scan
-- returns.
module _ {ℓ} (P : Graph → Type ℓ)
    (keeps : (key text : Text) (graph : Graph)
      → P graph
      → P (store key (page_info key text) graph)) where
  scan_page-keeps :
      (key : Text) (file : File) (graph graph' : Graph)
      → P graph
      → scan_page key file graph ≡ ok graph'
      → P graph'
  unfolding scan_page
  scan_page-keeps key unreadable graph graph' d e = subst P (ok-injective e) d
  scan_page-keeps key (readable false text) graph graph' d e = cc
  scan_page-keeps key (readable true text) graph graph' d e =
      subst P (ok-injective e) (keeps key text graph d)

  scan_paths-keeps :
      (cwd root : Text) (paths : List (Text × File)) (graph graph' : Graph)
      → P graph
      → scan_paths cwd root paths graph ≡ ok graph'
      → P graph'
  unfolding scan_paths
  scan_paths-keeps cwd root [] graph graph' d e = subst P (ok-injective e) d
  scan_paths-keeps cwd root ((path, file) ∷ rest) graph graph' d e =
      let key = strip_ext (posix (relpath cwd path root)) in
      elim (Bool-cases (is_skipped key)) [
        | inl s ↦ scan_paths-keeps cwd root rest graph graph' d (rw s at e)
        | inr s ↦ elim (Outcome-cases (scan_page key file graph)) [
          | inl (next, p) ↦
              scan_paths-keeps cwd root rest next graph' (scan_page-keeps key file graph next d p)
                (rw (s, p) at e)
          | inr (x, p) ↦ absurd (ground arith)
        ]
      ]

  pub scan-keeps :
      (cwd : Text) (variable : Option Text) (paths : List (Text × File)) (graph : Graph)
      → P []
      → scan cwd variable paths ≡ ok graph
      → P graph
  unfolding scan
  scan-keeps cwd variable paths graph d e =
      scan_paths-keeps cwd (project_root variable) paths [] graph d e
