-- ===== src/RfdCheck/Patterns/Lines.antt =====
-- `FM_RE` and `TITLE_RE` of scripts/check-rfd-numbers.py, with `re.M`: a search is a reading of the
-- text line by line.
use mathlib.Core.List.{append_assoc}
use multiplayer_fabric_manua.Common.{
  ℕ, Bool, true, not, List, [], ◌∷◌, ◌++◌, Option, none, some, ◌≡◌, refl, arith, ◌↔◌, inl, inr, ◌∙◌,
  sym, ap,
}
use multiplayer_fabric_manua.Common.Tests.{Option-ext, ◌==◌, Bool-cases, if◌then◌else◌}
use multiplayer_fabric_manua.Common.Lists.{all}
use multiplayer_fabric_manua.Common.Text.{Text, codes, split}
use multiplayer_fabric_manua.Regex.{
  assert, Regex, Mark, mark, group_of, match_at, search_from, search_group,
}
use multiplayer_fabric_manua.Regex.Fields.{Reads, field_re, field-group}
use multiplayer_fabric_manua.Regex.Search.{all_mono}
use multiplayer_fabric_manua.Regex.Classes.{is_hex, line_start}
use multiplayer_fabric_manua.RfdCheck.Patterns.{fm_re, title_re}
use multiplayer_fabric_manua.RfdCheck.Patterns.Numbered.{
  number_of_line, or_else, first_number, number_of_line_iff,
}

-- The part of a text before its first newline.
abbrev first_line : Text → Text
first_line [] = []
first_line (c ∷ s) = if c == b'\n' then [] else c ∷ first_line s

abbrev other_lines : Text → List Text
other_lines [] = []
other_lines (c ∷ s) = let rest = other_lines s in if c == b'\n' then first_line s ∷ rest else rest

split-lines : (s : Text) → split b'\n' s ≡ first_line s ∷ other_lines s
unfolding split
split-lines [] = refl
split-lines (c ∷ s) = ground (arith, split-lines s)

abbrev no_newline : Text → Bool
no_newline w = all (λ c. not (c == b'\n')) w

-- A part with no newline at the start of a text is at the start of its first line.
first_line-append : (w t : Text) → no_newline w ≡ true → first_line (w ++ t) ≡ w ++ first_line t
first_line-append [] t h = refl
first_line-append (c ∷ w) t h = ground (arith, first_line-append w t)

first_line-split : (s : Text) → (t : Text) × (s ≡ first_line s ++ t)
first_line-split [] = ([], refl)
first_line-split (c ∷ s) = elim (Bool-cases (c == b'\n')) [
  | inl e ↦ (c ∷ s, rw e refl)
  | inr e ↦ let (t, q) = first_line-split s in (t, rw e (ap (λ x. c ∷ x) q))
]

or_else-none {ℓ} : {A : Type ℓ} (o : Option A) → o ≡ or_else o none
or_else-none none = refl
or_else-none (some a) = refl

search_from-cons :
    (r : Regex) (b : Option ℕ) (c : ℕ) (s : Text)
    → group_of (search_from r b (c ∷ s))
      ≡ or_else (group_of (match_at r (c ∷ s) (mark b))) (group_of (search_from r (some c) s))
unfolding search_from
search_from-cons r b c s = ground arith

-- Prefix and suffix stand on one line.
module _ (pre suf : Text) (hp : no_newline pre ≡ true) (hs : no_newline suf ≡ true) where
  digits-no_newline : (n : Text) → all is_hex n ≡ true → no_newline n ≡ true
  unfolding is_hex
  digits-no_newline n k = all_mono is_hex (λ c. not (c == b'\n')) n (λ c h. ground arith) k

  first_line-Reads : (s n : Text) → Reads is_hex pre suf (first_line s) n ↔ Reads is_hex pre suf s n
  first_line-Reads s n = (there, back)
    where
      there : Reads is_hex pre suf (first_line s) n → Reads is_hex pre suf s n
      there (t, e, l, k) =
          let (t', q) = first_line-split s in
          (t ++ t', q ∙ (ap (λ x. x ++ t') e ∙ simp append_assoc), l, k)

      back : Reads is_hex pre suf s n → Reads is_hex pre suf (first_line s) n
      back (t, e, l, k) = (
        first_line t,
        rw (
          e,
          first_line-append pre (n ++ (suf ++ t)) hp,
          first_line-append n (suf ++ t) (digits-no_newline n k),
          first_line-append suf t hs,
        ),
        l,
        k,
      )

  number_of_line-first_line :
      (s : Text) → number_of_line pre suf (first_line s) ≡ number_of_line pre suf s
  number_of_line-first_line s = Option-ext _ _ λ n. (
    λ h.
        (number_of_line_iff pre suf s n).1
          ((first_line-Reads s n).0 ((number_of_line_iff pre suf (first_line s) n).0 h)),
    λ h.
        (number_of_line_iff pre suf (first_line s) n).1
          ((first_line-Reads s n).1 ((number_of_line_iff pre suf s n).0 h)),
  )

  group-number_of_line :
      (s : Text) (m : Mark)
      → group_of (match_at (field_re is_hex pre suf) s m) ≡ number_of_line pre suf s
  group-number_of_line s m = Option-ext _ _ λ n. (
    λ h. (number_of_line_iff pre suf s n).1 ((field-group is_hex pre suf s m n).0 h),
    λ h. (field-group is_hex pre suf s m n).1 ((number_of_line_iff pre suf s n).0 h),
  )

  abbrev line_re : Regex
  line_re = assert line_start ∷ field_re is_hex pre suf

  group-line_re :
      (b : Option ℕ) (s : Text)
      → group_of (match_at line_re s (mark b))
        ≡ (if line_start b s then number_of_line pre suf s else none)
  unfolding match_at
  group-line_re b s = ground (arith, group-number_of_line s (mark b))

  -- The lines that begin at a position or behind it.
  abbrev lines_after : Option ℕ → Text → List Text
  lines_after b s = if line_start b s then split b'\n' s else other_lines s

  lines_after-cons : (c : ℕ) (s : Text) → other_lines (c ∷ s) ≡ lines_after (some c) s
  lines_after-cons c s = ground (arith, split-lines s)

  first_number-here :
      (s : Text)
      → first_number pre suf (split b'\n' s)
        ≡ or_else (number_of_line pre suf s) (first_number pre suf (other_lines s))
  unfolding first_number
  first_number-here s = rw (split-lines s, number_of_line-first_line s)

  step :
      (b : Option ℕ) (s : Text)
      → or_else
          (if line_start b s then number_of_line pre suf s else none)
          (first_number pre suf (other_lines s))
        ≡ first_number pre suf (lines_after b s)
  step b s = elim (Bool-cases (line_start b s)) [
    | inl e ↦ rw e (sym (first_number-here s))
    | inr e ↦ rw e refl
  ]

  search_from-lines_nil :
      (b : Option ℕ) → group_of (search_from line_re b []) ≡ first_number pre suf (lines_after b [])
  unfolding search_from first_number
  search_from-lines_nil b =
      or_else-none _ ∙ (ap (λ o. or_else o none) (group-line_re b []) ∙ step b [])

  search_from-lines :
      (b : Option ℕ) (s : Text)
      → group_of (search_from line_re b s) ≡ first_number pre suf (lines_after b s)
  search_from-lines b [] = search_from-lines_nil b
  search_from-lines b (c ∷ s) =
      search_from-cons line_re b c s
      ∙ rw (group-line_re b (c ∷ s), search_from-lines (some c) s, ← lines_after-cons c s)
          (step b (c ∷ s))

-- The number in the text is the one of the first line that has one.
pub search-first_number :
    (pre suf s : Text)
    → no_newline pre ≡ true
    → no_newline suf ≡ true
    → group_of (search_from (assert line_start ∷ field_re is_hex pre suf) none s)
      ≡ first_number pre suf (split b'\n' s)
search-first_number pre suf s hp hs = search_from-lines pre suf hp hs none s

-- `FM_RE.search(body)`: the first line `rfd: "` with four hexadecimal digits and `"`.
pub search-fm_re :
    (body : Text)
    → search_group fm_re body ≡ first_number (codes "rfd: \"") (codes "\"") (split b'\n' body)
unfolding search_group fm_re
search-fm_re body = search-first_number (codes "rfd: \"") (codes "\"") body refl refl

-- `TITLE_RE.search(body)`: the first line `title: "RFD ` with four hexadecimal digits and `:`.
pub search-title_re :
    (body : Text)
    → search_group title_re body
      ≡ first_number (codes "title: \"RFD ") (codes ":") (split b'\n' body)
unfolding search_group title_re
search-title_re body = search-first_number (codes "title: \"RFD ") (codes ":") body refl refl
