-- ===== src/PageMeta/Tests/Ways.antt =====
-- The breadcrumb's way to the root and the address of a related page, on sample paths.
use multiplayer_fabric_manua.Common.{some, List, [], ◌∷◌, ◌++◌, ◌≡◌, refl}
use multiplayer_fabric_manua.Common.Lists.{All}
use multiplayer_fabric_manua.Common.Text.{Text, codes, text_eq, starts_with, split, join_with}
use multiplayer_fabric_manua.PosixPath.{join, normpath, dirname, relpath}
use multiplayer_fabric_manua.PosixPath.Components.{is_name, IsName, slashed}
use multiplayer_fabric_manua.PosixPath.Relative.{rooted, IsOutside}
use multiplayer_fabric_manua.PageMeta.Document.{prefix_of, way_to}
use multiplayer_fabric_manua.PageMeta.Document.Ways.{prefix_of-normpath}
use multiplayer_fabric_manua.PageMeta.Document.Addresses.{way_to-normpath}
use multiplayer_fabric_manua.PageMeta.Document.Readback.{resolve-way_to}
use multiplayer_fabric_manua.PageMeta.Paths.{resolve}

abbrev folders : List Text
folders = codes "rfd" ∷ codes "2001-a" ∷ []

abbrev target : List Text
target = codes "pages" ∷ codes "rfd.html" ∷ []

abbrev other_page : List Text
other_page = codes "rfd" ∷ codes "2002-b" ∷ codes "index" ∷ []

folders-IsName : All IsName folders
unfolding is_name text_eq
folders-IsName = (refl, (refl, tt))

target-IsName : All IsName target
unfolding is_name text_eq
target-IsName = (refl, (refl, tt))

other_page-IsName : All IsName other_page
unfolding is_name text_eq
other_page-IsName = (refl, (refl, (refl, tt)))

index-IsName : IsName (codes "index")
unfolding is_name text_eq
index-IsName = refl

folders-IsOutside : IsOutside folders other_page
folders-IsOutside r e = cc

prefix_of-normpath_example :
    normpath (
      join
        (dirname (slashed (folders ++ codes "index" ∷ [])))
        (prefix_of (slashed (folders ++ codes "index" ∷ [])) ++ slashed target))
    ≡ slashed target
prefix_of-normpath_example =
    prefix_of-normpath target target-IsName (λ e. cc) folders (codes "index") folders-IsName
      index-IsName

way_to-normpath_example :
    normpath (
      join
        (slashed folders)
        (way_to (rooted (codes "w" ∷ [])) (slashed folders) (slashed other_page)))
    ≡ slashed other_page ++ codes ".html"
way_to-normpath_example =
    way_to-normpath (codes "w" ∷ []) w-IsName (codes "rfd") (codes "2002-b" ∷ codes "index" ∷ [])
      other_page-IsName folders folders-IsName folders-IsOutside
  where
    w-IsName : All IsName (codes "w" ∷ [])
    w-IsName = unfold is_name text_eq in (refl, tt)

-- The address of the page of the name of the folder itself.
folder_page : way_to (codes "/w") (codes "rfd/a") (codes "rfd/a") ≡ codes "..html"
unfolding relpath split join_with text_eq starts_with
folder_page = refl

resolve-way_to_example :
    resolve
      (slashed folders)
      (way_to (rooted (codes "w" ∷ [])) (slashed folders) (slashed other_page))
    ≡ some (slashed other_page)
resolve-way_to_example =
    resolve-way_to (codes "w" ∷ []) (unfold is_name text_eq in (refl, tt)) (codes "rfd")
      (codes "2002-b" ∷ codes "index" ∷ []) other_page-IsName (refl, (refl, (refl, tt)))
      (unfold starts_with in refl) folders folders-IsName folders-IsOutside
