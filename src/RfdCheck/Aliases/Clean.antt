-- ===== src/RfdCheck/Aliases/Clean.antt =====
-- Lemmas on the last part of `check`, `alias_problems`.
use mathlib.Core.Path.{subst}
use mathlib.Core.List.{Memᴰ}
use multiplayer_fabric_manua.Common.{
  true, false, List, [], ◌∷◌, ◌≡◌, refl, arith, ◌↔◌, inl, inr, sym, ap,
}
use multiplayer_fabric_manua.Common.Tests.{Bool-cases}
use multiplayer_fabric_manua.Common.Lists.{any}
use multiplayer_fabric_manua.Common.Dict.{keys}
use multiplayer_fabric_manua.Common.Sorting.{sorted}
use multiplayer_fabric_manua.Common.Text.{Text, text_eq, mem_iff}
use multiplayer_fabric_manua.Regex.{find_all}
use multiplayer_fabric_manua.RfdCheck.Patterns.{alias_re}
use multiplayer_fabric_manua.RfdCheck.Patterns.AliasRows.{Mentions, find_all-alias}
use multiplayer_fabric_manua.RfdCheck.FileTree.{
  Entry, missing, is_file, is_dir, unreadable, readable, ok, read_strict,
}
use multiplayer_fabric_manua.RfdCheck.FileTree.Outcomes.{ok-injective}
use multiplayer_fabric_manua.RfdCheck.Numbers.{Seen}
use multiplayer_fabric_manua.RfdCheck.Aliases.{row_problems, alias_problems}

-- ALIASES.md can be read strictly, and each number is mentioned in it.
abbrev pub HasRows : Entry → List Text → Type 0
HasRows aliases nums =
    (body : Text) × (aliases ≡ is_file (readable true body))
    × ((num : Text) → Memᴰ num nums → Mentions body num)

row_problems-eq-nil :
    (mapped nums : List Text)
    → (row_problems mapped nums ≡ []) ↔ ((num : Text) → Memᴰ num nums → Memᴰ num mapped)
unfolding row_problems
row_problems-eq-nil mapped [] = (λ e t m. elim m [ ], λ h. refl)
row_problems-eq-nil mapped (n ∷ ns) = elim (Bool-cases (any (text_eq n) mapped)) [
  | inl e ↦ (
    λ h. both n ((mem_iff n mapped).0 e) ((row_problems-eq-nil mapped ns).0 (rw e at h)),
    λ h. rw e ((row_problems-eq-nil mapped ns).1 (λ t m. h t (Memᴰ.tail m))),
  )
  | inr e ↦ (
    λ h. absurd (ground arith),
    λ h. absurd (ground (arith, (mem_iff n mapped).1 (h n (Memᴰ.head refl)))),
  )
]
  where
    both :
        (k : Text)
        → Memᴰ k mapped
        → ((num : Text) → Memᴰ num ns → Memᴰ num mapped)
        → (num : Text) → Memᴰ num (k ∷ ns)
        → Memᴰ num mapped
    both k m h num (Memᴰ.head e) = subst (λ x. Memᴰ x mapped) (sym e) m
    both k m h num (Memᴰ.tail r) = h num r

-- No row is missing, and ALIASES.md does not raise, exactly when it is a UTF-8 file that mentions
-- every number of `seen`.
pub alias_problems-eq-nil :
    (aliases : Entry) (seen : Seen)
    → (alias_problems aliases seen ≡ ok []) ↔ HasRows aliases (sorted (keys seen))
unfolding alias_problems read_strict
alias_problems-eq-nil missing seen = (λ h. ground arith, λ (b, e, h). cc)
alias_problems-eq-nil (is_dir d) seen = (λ h. ground arith, λ (b, e, h). cc)
alias_problems-eq-nil (is_file unreadable) seen = (λ h. ground arith, λ (b, e, h). cc)
alias_problems-eq-nil (is_file (readable false t)) seen = (λ h. ground arith, λ (b, e, h). cc)
alias_problems-eq-nil (is_file (readable true t)) seen =
    let q = row_problems-eq-nil (find_all alias_re t) (sorted (keys seen)) in
    (
      λ h. (t, refl, λ num m. (find_all-alias t num).0 (q.0 (ok-injective h) num m)),
      λ (b, e, h). ap ok (q.1 (λ num m. (find_all-alias t num).1 (same b e num (h num m)))),
    )
  where
    same :
        (b : Text)
        → is_file (readable true t) ≡ is_file (readable true b)
        → (num : Text) → Mentions b num
        → Mentions t num
    same b e num h = let p : b ≡ t = cc in subst (λ x. Mentions x num) p h
