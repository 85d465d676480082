-- ===== src/RfdCheck/SelfTest/Verdicts.antt =====
-- What the exit status of `self_test` says of the trees of its table.
use mathlib.Core.Path.{subst}
use multiplayer_fabric_manua.Common.{
  ℕ, Bool, true, false, ◌&&◌, List, [], ◌∷◌, ◌≡◌, ◌↔◌, refl, arith, sym, ap, ◌∙◌,
}
use multiplayer_fabric_manua.Common.Tests.{if◌then◌else◌}
use multiplayer_fabric_manua.Common.Lists.{All}
use multiplayer_fabric_manua.Common.Text.{Text}
use multiplayer_fabric_manua.RfdCheck.Patterns.{Unicode}
use multiplayer_fabric_manua.RfdCheck.Patterns.OldCitations.{HasLetters}
use multiplayer_fabric_manua.RfdCheck.FileTree.{Outcome, ok, raised, ◌>>=◌}
use multiplayer_fabric_manua.RfdCheck.FileTree.Outcomes.{ok-injective}
use multiplayer_fabric_manua.RfdCheck.Run.{Run, say, ended, after}
use multiplayer_fabric_manua.RfdCheck.Numbers.{Problems}
use multiplayer_fabric_manua.RfdCheck.Check.{check}
use multiplayer_fabric_manua.RfdCheck.Check.Iff.{Conforms, check_iff}
use multiplayer_fabric_manua.RfdCheck.SelfTest.{
  Options, Case, build, cases, failed, same, case_line, run_cases, self_test,
}

and_then_iff :
    (b : Bool) (r : Outcome Bool)
    → ((r >>= λ p. ok (b && p)) ≡ ok true) ↔ ((b ≡ true) × (r ≡ ok true))
and_then_iff true (ok p) = (λ e. (refl, e), λ h. h.1)
and_then_iff false (ok p) = (λ e. absurd (ground arith), λ h. absurd (ground arith))
and_then_iff b (raised x) = (λ e. absurd (ground arith), λ h. absurd (ground arith))

module _ (u : Unicode) (cwd script tmp : Text) where
  abbrev pub Follows : Options → Type 0
  Follows o = (nums : List Text) × Conforms u cwd script tmp (build o) nums

  -- A tree that should pass follows the rule; one that should fail does not, and the check of it
  -- raises nothing.
  abbrev pub AsExpected : Options → Bool → Type 0
  AsExpected o false = Follows o
  AsExpected o true =
      ((found : Problems) × (check u cwd script tmp (build o) ≡ ok found)) × (¬ (Follows o))

  abbrev pub CaseAsExpected : Case → Type 0
  CaseAsExpected (name, (o, should_fail)) = AsExpected o should_fail

  abbrev Found : Outcome Problems → Bool → Type 0
  Found checked should_fail =
      (found : Problems) × ((checked ≡ ok found) × (same (failed found) should_fail ≡ true))

  found_iff :
      HasLetters u
      → (o : Options) (should_fail : Bool)
      → Found (check u cwd script tmp (build o)) should_fail ↔ AsExpected o should_fail
  found_iff h o false =
      let rule = check_iff u cwd script tmp h (build o) in
      (λ (found, (e, s)). rule.0 (e ∙ ap ok (none_of found s)), λ c. ([], (rule.1 c, refl)))
    where
      none_of : (found : Problems) → same (failed found) false ≡ true → found ≡ []
      none_of [] s = refl
      none_of (p ∷ ps) s = absurd (ground arith)
  found_iff h o true =
      let rule = check_iff u cwd script tmp h (build o) in
      (
        λ (found, (e, s)). ((found, e), λ c. some_of found s (ok-injective (sym e ∙ rule.1 c))),
        λ ((found, e), n). (found, (e, fails found (λ z. n (rule.0 (e ∙ ap ok z))))),
      )
    where
      some_of : (found : Problems) → same (failed found) true ≡ true → ¬ (found ≡ [])
      some_of [] s e = ground arith
      some_of (p ∷ ps) s e = cc

      fails : (found : Problems) → ¬ (found ≡ []) → same (failed found) true ≡ true
      fails [] n = absurd (n refl)
      fails (p ∷ ps) n = refl

  both_iff :
      (name : Text) (should_fail : Bool) (checked : Outcome Problems) (later : Run Bool)
      → ((after checked (λ found.
            say
              (case_line name (failed found) should_fail)
              (ended (λ passed. same (failed found) should_fail && passed) later))).result
          ≡ ok true)
        ↔ (Found checked should_fail × (later.result ≡ ok true))
  both_iff name should_fail (raised x) later =
      (λ e. absurd (ground arith), λ ((found, (e, s)), l). absurd (ground arith))
  both_iff name should_fail (ok f) later =
      let iff = and_then_iff (same (failed f) should_fail) later.result in
      (
        λ e. let (s, l) = iff.0 e in ((f, (refl, s)), l),
        λ ((found, (e, s)), l).
            let s' = subst (λ x. same (failed x) should_fail ≡ true) (sym (ok-injective e)) s in
            iff.1 (s', l),
      )

  run_cases_iff :
      HasLetters u
      → (cs : List Case)
      → ((run_cases u cwd script tmp cs).result ≡ ok true) ↔ All CaseAsExpected cs
  unfolding run_cases
  run_cases_iff h [] = (λ e. tt, λ a. refl)
  run_cases_iff h ((name, (o, should_fail)) ∷ cs) =
      let both =
        both_iff name should_fail (check u cwd script tmp (build o))
          (run_cases u cwd script tmp cs) in
      let this = found_iff h o should_fail in
      let rest = run_cases_iff h cs in
      (λ e. let (f, l) = both.0 e in (this.0 f, rest.0 l), λ (a, l). both.1 (this.1 a, rest.1 l))

  passed_iff :
      (r : Outcome Bool) → (◌>>=◌ {B = ℕ} r (λ p. ok (if p then 0 else 1)) ≡ ok 0) ↔ (r ≡ ok true)
  passed_iff (ok true) = (λ e. refl, λ e. refl)
  passed_iff (ok false) = (λ e. absurd (ground arith), λ e. absurd (ground arith))
  passed_iff (raised x) = (λ e. absurd (ground arith), λ e. absurd (ground arith))

  -- The self-test ends with status 0 exactly when in its table each tree that should pass follows the
  -- rule, and each that should fail does not, with a check of it that raises nothing; with Python's
  -- tables as `HasLetters` says.
  pub self_test_iff :
      HasLetters u → ((self_test u cwd script tmp).result ≡ ok 0) ↔ All CaseAsExpected cases
  unfolding self_test
  self_test_iff h =
      let passed = passed_iff (run_cases u cwd script tmp cases).result in
      let each = run_cases_iff h cases in (λ e. each.0 (passed.0 e), λ a. passed.1 (each.1 a))
