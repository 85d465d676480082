-- ===== src/PageMeta/Graph/Keys.antt =====
-- The keys of the graph that `_scan` of scripts/decision-meta.py returns.
use multiplayer_fabric_manua.Common.{List, Option, ◌≡◌}
use multiplayer_fabric_manua.Common.Lists.{Distinct}
use multiplayer_fabric_manua.Common.Text.{Text}
use multiplayer_fabric_manua.Common.Dict.{keys, store-Distinct}
use multiplayer_fabric_manua.RfdCheck.FileTree.{File, ok}
use multiplayer_fabric_manua.PageMeta.Graph.{Graph, scan, page_info}
use multiplayer_fabric_manua.PageMeta.Graph.Invariants.{scan-keeps}

-- No key stands twice in the graph of a scan that returns.
pub scan-Distinct :
    (cwd : Text) (variable : Option Text) (paths : List (Text × File)) (graph : Graph)
    → scan cwd variable paths ≡ ok graph
    → Distinct (keys graph)
scan-Distinct cwd variable paths graph =
    scan-keeps (λ g. Distinct (keys g))
      (λ key text g d. store-Distinct key (page_info key text) g d) cwd variable paths graph tt
