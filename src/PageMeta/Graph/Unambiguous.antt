-- ===== src/PageMeta/Graph/Unambiguous.antt =====
-- Files with keys of their own, in `_scan` of scripts/decision-meta.py.
use mathlib.Core.Path.{subst}
use mathlib.Core.List.{Memᴰ}
use multiplayer_fabric_manua.Common.{true, List, [], ◌∷◌, Option, ◌≡◌, sym, ap, ◌∙◌}
use multiplayer_fabric_manua.Common.Lists.{Distinct}
use multiplayer_fabric_manua.Common.Text.{Text}
use multiplayer_fabric_manua.RfdCheck.FileTree.{File, readable}
use multiplayer_fabric_manua.PageMeta.Graph.{page_info, project_root}
use multiplayer_fabric_manua.PageMeta.Graph.Entries.{key_at, IsUnambiguous}

-- The keys of the files.
abbrev pub keys_at : Text → Text → List (Text × File) → List Text
keys_at cwd root [] = []
keys_at cwd root (f ∷ paths) = key_at cwd root f.0 ∷ keys_at cwd root paths

mem-keys_at :
    (cwd root : Text) (f : Text × File) (paths : List (Text × File))
    → Memᴰ f paths
    → Memᴰ (key_at cwd root f.0) (keys_at cwd root paths)
mem-keys_at cwd root f (g ∷ paths) (Memᴰ.head q) =
    Memᴰ.head (ap (λ (x : Text × File). key_at cwd root x.0) q)
mem-keys_at cwd root f (g ∷ paths) (Memᴰ.tail m) = Memᴰ.tail (mem-keys_at cwd root f paths m)
mem-keys_at cwd root f [] m = elim m [ ]

same_file :
    (cwd root : Text) (f g : Text × File) (paths : List (Text × File))
    → Distinct (keys_at cwd root paths)
    → Memᴰ f paths
    → Memᴰ g paths
    → key_at cwd root f.0 ≡ key_at cwd root g.0
    → f ≡ g
same_file cwd root f g [] d m m' e = elim m [ ]
same_file cwd root f g (x ∷ paths) (fresh, d) (Memᴰ.head q) (Memᴰ.head q') e = q ∙ sym q'
same_file cwd root f g (x ∷ paths) (fresh, d) (Memᴰ.head q) (Memᴰ.tail m') e =
    let at : key_at cwd root g.0 ≡ key_at cwd root x.0 =
      sym e ∙ ap (λ (y : Text × File). key_at cwd root y.0) q in
    absurd
      (fresh (subst (λ k. Memᴰ k (keys_at cwd root paths)) at (mem-keys_at cwd root g paths m')))
same_file cwd root f g (x ∷ paths) (fresh, d) (Memᴰ.tail m) (Memᴰ.head q') e =
    let at : key_at cwd root f.0 ≡ key_at cwd root x.0 =
      e ∙ ap (λ (y : Text × File). key_at cwd root y.0) q' in
    absurd
      (fresh (subst (λ k. Memᴰ k (keys_at cwd root paths)) at (mem-keys_at cwd root f paths m)))
same_file cwd root f g (x ∷ paths) (fresh, d) (Memᴰ.tail m) (Memᴰ.tail m') e =
    same_file cwd root f g paths d m m' e

-- Files whose keys differ are unambiguous.
pub Distinct-IsUnambiguous :
    (cwd : Text) (variable : Option Text) (paths : List (Text × File))
    → Distinct (keys_at cwd (project_root variable) paths)
    → IsUnambiguous cwd variable paths
Distinct-IsUnambiguous cwd variable paths d k i j (f, text, m, (p, _, p'), q)
      (g, text', m', (r, _, r'), q') =
    let same : f ≡ g = same_file cwd (project_root variable) f g paths d m m' (sym p ∙ r) in
    let bodies : readable true text ≡ readable true text' =
      sym p' ∙ (ap (λ (x : Text × File). x.1) same ∙ r') in
    let texts : text ≡ text' = cc in q ∙ (ap (page_info k) texts ∙ sym q')
