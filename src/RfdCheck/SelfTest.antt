-- ===== src/RfdCheck/SelfTest.antt =====
-- `self_test` of scripts/check-rfd-numbers.py: the trees that it builds and what it expects of each.
-- The temporary directory is the root; the tree does not hold the script itself.
pub mod Verdicts
pub mod Skipped
use multiplayer_fabric_manua.Common.{
  ℕ, Bool, true, false, ◌&&◌, List, [], ◌∷◌, ◌++◌, Option, none, some,
}
use multiplayer_fabric_manua.Common.Tests.{if◌then◌else◌}
use multiplayer_fabric_manua.Common.Text.{Text, codes}
use multiplayer_fabric_manua.RfdCheck.Patterns.{Unicode}
use multiplayer_fabric_manua.RfdCheck.FileTree.{readable, Dir, nil, file, dir, ok, ◌>>=◌}
use multiplayer_fabric_manua.RfdCheck.Run.{Run, say, ended, after}
use multiplayer_fabric_manua.RfdCheck.Numbers.{Problems}
use multiplayer_fabric_manua.RfdCheck.Check.{check}

-- The keyword arguments of `build`, with their defaults.
pub record Options : Type 0 where
  pub dirname : Text
  pub fm : Text
  pub title : Text
  pub extra : Option Text
  pub aliases : Text
  pub link : Text

abbrev pub defaults : Options
defaults = record {
  dirname = codes "2001-a-slug";
  fm = codes "2001";
  title = codes "2001";
  extra = none;
  aliases = codes "| RFD 0001 | RFD 2001 |\n";
  link = [];
}

-- The page that `build` writes.
unfoldable pub page : Options → Text
page o =
    codes "---\ntitle: \"RFD "
    ++ (o.title
        ++ (codes ": A slug\"\nrfd: \""
            ++ (o.fm ++ (codes "\"\nstate: published\n---\n" ++ o.link))))

abbrev note : Option Text → Dir → Dir
note none d = d
note (some []) d = d
note (some (c ∷ t)) d = file (codes "note.md") (readable true (c ∷ t)) d

unfoldable pub build : Options → Dir
build o =
    dir (codes "rfd") (dir o.dirname (file (codes "index.md") (readable true (page o)) nil) nil)
      (file (codes "ALIASES.md") (readable true o.aliases) (note o.extra nil))

-- The table of cases: the name, the options, and whether the tree should fail.
abbrev pub Case : Type 0
Case = Text × (Options × Bool)

unfoldable pub cases : List Case
cases =
    (codes "a clean tree passes", (defaults, false))
    ∷ (codes "wrong organization digit", (record defaults { dirname = codes "1001-a-slug" }, true))
    ∷ (codes "decimal directory name", (record defaults { dirname = codes "0001-a-slug" }, true))
    ∷ (codes "front matter disagrees with directory", (record defaults { fm = codes "2002" }, true))
    ∷ (codes "title disagrees with directory", (record defaults { title = codes "2002" }, true))
    ∷ (
      codes "an unmigrated decimal citation",
      (record defaults { extra = some (codes "see RFD 0021\n") }, true),
    )
    ∷ (
      codes "a link to a folder that moved",
      (record defaults { link = codes "see [x](../2099-gone/index.md)\n" }, true),
    )
    ∷ (
      codes "ALIASES.md missing the row",
      (record defaults { aliases = codes "| RFD 9999 |\n" }, true),
    )
    ∷ []

-- `bool(check(tmp))`
abbrev pub failed : Problems → Bool
failed [] = false
failed (p ∷ ps) = true

abbrev pub same : Bool → Bool → Bool
same true b = b
same false true = false
same false false = true

-- What is printed of a case.
unfoldable pub case_line : Text → Bool → Bool → Text
case_line name failed should_fail =
    codes "  "
    ++ ((if same failed should_fail then codes "ok " else codes "BAD")
        ++ (codes " "
            ++ (name ++ (codes ": " ++ (if failed then codes "rejected" else codes "accepted")))))

module _ (u : Unicode) (cwd script tmp : Text) where
  -- `ok` after the loop.
  unfoldable pub run_cases : List Case → Run Bool
  run_cases [] = record { lines = []; result = ok true }
  run_cases ((name, (o, should_fail)) ∷ rest) =
      let later = run_cases rest in
      after (check u cwd script tmp (build o)) (λ found.
        say (case_line name (failed found) should_fail)
          (ended (λ passed. same (failed found) should_fail && passed) later))

  -- The exit status.
  unfoldable pub self_test : Run ℕ
  self_test = ended (λ passed. if passed then 0 else 1) (run_cases cases)
