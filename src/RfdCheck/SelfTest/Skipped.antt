-- ===== src/RfdCheck/SelfTest/Skipped.antt =====
-- The self-test in a temporary directory below one that the walk for old citations passes over.
use multiplayer_fabric_manua.Common.{true, some, ◌≡◌, ◌≢◌, refl, ◌∙◌}
use multiplayer_fabric_manua.Common.Lists.{All}
use multiplayer_fabric_manua.Common.Text.{Text, codes, text_eq, starts_with}
use multiplayer_fabric_manua.RfdCheck.Patterns.{Unicode}
use multiplayer_fabric_manua.RfdCheck.Patterns.OldCitations.{HasLetters}
use multiplayer_fabric_manua.RfdCheck.FileTree.{ok, entry_at}
use multiplayer_fabric_manua.RfdCheck.Citations.{is_skipped}
use multiplayer_fabric_manua.RfdCheck.Citations.Skipped.{HasNames, citation_problems-is_skipped}
use multiplayer_fabric_manua.RfdCheck.Check.{check, check_rfd}
use multiplayer_fabric_manua.RfdCheck.Check.Iff.{check_iff}
use multiplayer_fabric_manua.RfdCheck.SelfTest.{Options, defaults, page, build, cases, self_test}
use multiplayer_fabric_manua.RfdCheck.SelfTest.Verdicts.{CaseAsExpected, self_test_iff}

-- The options of the case with an old citation.
abbrev with_citation : Options
with_citation = record defaults { extra = some (codes "see RFD 0021\n") }

clean-HasNames : HasNames (build defaults)
unfolding build starts_with
clean-HasNames = (refl, (refl, tt, tt), tt)

cited-HasNames : HasNames (build with_citation)
unfolding build starts_with
cited-HasNames = (refl, (refl, tt, tt), tt)

same_rfd : entry_at (build with_citation) (codes "rfd") ≡ entry_at (build defaults) (codes "rfd")
unfolding build page entry_at text_eq
same_rfd = refl

same_aliases :
    entry_at (build with_citation) (codes "ALIASES.md")
    ≡ entry_at (build defaults) (codes "ALIASES.md")
unfolding build entry_at text_eq
same_aliases = refl

module _ (u : Unicode) (cwd script tmp : Text) where
  -- The check of the tree with the citation comes to what it comes to without it.
  same_check :
      is_skipped tmp ≡ true
      → check u cwd script tmp (build with_citation) ≡ check u cwd script tmp (build defaults)
  same_check h =
      let clean = citation_problems-is_skipped u cwd script tmp (build defaults) clean-HasNames h in
      let cited =
        citation_problems-is_skipped u cwd script tmp (build with_citation) cited-HasNames h in
      unfold check check_rfd in rw (clean, cited, same_rfd, same_aliases) refl

  -- When the path of the temporary directory has a component `.git`, `__pycache__` or `_site`, the
  -- self-test does not end with status 0; with Python's tables as `HasLetters` says.
  pub self_test-is_skipped :
      HasLetters u → is_skipped tmp ≡ true → (self_test u cwd script tmp).result ≢ ok 0
  self_test-is_skipped h k e = of_cases ((self_test_iff u cwd script tmp h).0 e)
    where
      of_cases : All (CaseAsExpected u cwd script tmp) cases → ⊥
      of_cases =
          unfold cases in
          λ (clean, (_, (_, (_, (_, ((_, not_cited), _)))))). not_cited (
            (check_iff u cwd script tmp h (build with_citation)).0
              (same_check k ∙ (check_iff u cwd script tmp h (build defaults)).1 clean))
