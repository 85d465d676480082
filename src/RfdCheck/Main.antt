-- ===== src/RfdCheck/Main.antt =====
-- The command line of scripts/check-rfd-numbers.py: which run it asks for, and the exit status.
use multiplayer_fabric_manua.Common.{ℕ, false, List, [], ◌∷◌, ◌++◌, ◌≡◌, refl, arith, ◌↔◌, ap}
use multiplayer_fabric_manua.Common.Tests.{if◌then◌else◌}
use multiplayer_fabric_manua.Common.Lists.{length}
use multiplayer_fabric_manua.Common.Decimal.{decimal}
use multiplayer_fabric_manua.Common.Text.{Text, codes, mem}
use multiplayer_fabric_manua.PosixPath.{abspath, dirname}
use multiplayer_fabric_manua.RfdCheck.Patterns.{Unicode}
use multiplayer_fabric_manua.RfdCheck.Patterns.OldCitations.{HasLetters}
use multiplayer_fabric_manua.RfdCheck.FileTree.{Dir, Outcome, ok, raised}
use multiplayer_fabric_manua.RfdCheck.Run.{Run, say, after}
use multiplayer_fabric_manua.RfdCheck.FileTree.Outcomes.{ok-injective}
use multiplayer_fabric_manua.RfdCheck.Numbers.{Problems}
use multiplayer_fabric_manua.RfdCheck.Check.{check}
use multiplayer_fabric_manua.RfdCheck.Check.Iff.{Conforms, check_iff}
use multiplayer_fabric_manua.RfdCheck.SelfTest.{self_test}

-- `1 if found else 0`
abbrev pub exit_status : Problems → ℕ
exit_status [] = 0
exit_status (p ∷ ps) = 1

-- `os.path.dirname(os.path.dirname(os.path.abspath(__file__)))`
unfoldable pub repository : Text → Text → Text
repository cwd script = dirname (dirname (abspath cwd script))

-- `print(f"{len(found)} problems")`
unfoldable pub count_line : Problems → Text
unfolding decimal
count_line found = decimal (length found) ++ codes " problems"

abbrev pub report : Problems → Run ℕ
report found = record { lines = found ++ count_line found ∷ []; result = ok (exit_status found) }

module _ (u : Unicode) (cwd script tmp : Text) where
  -- `tree` is what stands in the repository.
  unfoldable pub main : List Text → Dir → Run ℕ
  main argv tree =
      if mem (codes "--self-test") argv
      then say (codes "self-test: each known-bad tree must be rejected")
          (self_test u cwd script tmp)
      else after (check u cwd script (repository cwd script) tree) report

  found_none : (found : Problems) → (ok (exit_status found) ≡ ok 0) ↔ (found ≡ [])
  found_none [] = (λ e. refl, λ e. refl)
  found_none (p ∷ ps) = (λ e. ground arith, λ e. ground arith)

  exit_zero :
      (checked : Outcome Problems) → ((after checked report).result ≡ ok 0) ↔ (checked ≡ ok [])
  exit_zero (ok found) =
      (λ e. ap ok ((found_none found).0 e), λ e. (found_none found).1 (ok-injective e))
  exit_zero (raised x) = (λ e. ground arith, λ e. ground arith)

  one_line : (found : Problems) (x y : Text) → found ++ x ∷ [] ≡ y ∷ [] → found ≡ []
  one_line [] x y e = refl
  one_line (p ∷ []) x y e = absurd cc
  one_line (p ∷ q ∷ ps) x y e = absurd cc

  lines_zero :
      (checked : Outcome Problems)
      → ((after checked report).lines ≡ codes "0 problems" ∷ []) ↔ (checked ≡ ok [])
  lines_zero (ok found) = (
    λ e. ap ok (one_line found (count_line found) (codes "0 problems") e),
    λ e. none_lines (ok-injective e),
  )
    where
      none_lines : found ≡ [] → found ++ count_line found ∷ [] ≡ codes "0 problems" ∷ []
      none_lines e = rw e (unfold count_line in refl)
  lines_zero (raised x) = (λ e. absurd cc, λ e. ground arith)

  -- Without `--self-test`, the script exits with status 0 exactly when the tree of the repository
  -- follows the rule; with Python's tables as `HasLetters` says.
  pub main_iff :
      HasLetters u
      → (argv : List Text) (tree : Dir) → mem (codes "--self-test") argv ≡ false
      → ((main argv tree).result ≡ ok 0)
        ↔ ((nums : List Text) × Conforms u cwd script (repository cwd script) tree nums)
  unfolding main
  main_iff h argv tree e =
      let there = exit_zero (check u cwd script (repository cwd script) tree) in
      let rule = check_iff u cwd script (repository cwd script) h tree in
      rw e (λ z. rule.0 (there.0 z), λ c. there.1 (rule.1 c))

  -- Without `--self-test`, the script prints `0 problems` and nothing else exactly when the tree of
  -- the repository follows the rule; with Python's tables as `HasLetters` says.
  pub main-lines_iff :
      HasLetters u
      → (argv : List Text) (tree : Dir) → mem (codes "--self-test") argv ≡ false
      → ((main argv tree).lines ≡ codes "0 problems" ∷ [])
        ↔ ((nums : List Text) × Conforms u cwd script (repository cwd script) tree nums)
  unfolding main
  main-lines_iff h argv tree e =
      let there = lines_zero (check u cwd script (repository cwd script) tree) in
      let rule = check_iff u cwd script (repository cwd script) h tree in
      rw e (λ z. rule.0 (there.0 z), λ c. there.1 (rule.1 c))
