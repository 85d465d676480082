-- ===== src/PageMeta/Related.antt =====
-- The pages that `finalize` of scripts/decision-meta.py lists as related, and the page it is on.
pub mod Members
pub mod Symmetry
pub mod Titled
pub mod Order
use multiplayer_fabric_manua.Common.{Bool, not, ◌&&◌, List, [], ◌∷◌, Option, none, some}
use multiplayer_fabric_manua.Common.Tests.{◌==◌, if◌then◌else◌}
use multiplayer_fabric_manua.Common.Lists.{any}
use multiplayer_fabric_manua.Common.Text.{Text, text_eq, mem}
use multiplayer_fabric_manua.Common.Dict.{lookup, keys}
use multiplayer_fabric_manua.Common.Sorting.{sorted}
use multiplayer_fabric_manua.PageMeta.Graph.{Graph, Info, add}

-- `next((k for k, info in graph.items() if info["title"] == title), None)`
unfoldable pub page_titled : Text → Graph → Option Text
page_titled title [] = none
page_titled title ((k, info) ∷ graph) =
    if text_eq info.title title then some k else page_titled title graph

abbrev out_of : Option Info → List Text
out_of none = []
out_of (some info) = info.out

-- `graph[current]["out"]`
unfoldable pub outbound : Graph → Text → List Text
outbound graph current = out_of (lookup current graph)

-- `{k for k, info in graph.items() if current in info["out"]}`
unfoldable pub inbound : Graph → Text → List Text
inbound [] current = []
inbound ((k, info) ∷ graph) current =
    let rest = inbound graph current in if mem current info.out then k ∷ rest else rest

-- `a | b`
unfoldable pub union : List Text → List Text → List Text
union a [] = a
union a (k ∷ b) = union (add k a) b

-- `"/" in k`
unfoldable pub has_slash : Text → Bool
has_slash k = any (λ c. c == b'/') k

-- `k != current and "/" in k and k in graph`
unfoldable pub is_content : Graph → Text → Text → Bool
is_content graph current k = not (text_eq k current) && (has_slash k && mem k (keys graph))

unfoldable pub select : (Text → Bool) → List Text → List Text
select p [] = []
select p (k ∷ l) = let rest = select p l in if p k then k ∷ rest else rest

unfoldable pub related : Graph → Text → List Text
related graph current =
    sorted
      (select (is_content graph current) (union (outbound graph current) (inbound graph current)))
