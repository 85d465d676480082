-- ===== src/RfdCheck/Numbers/Rounds.antt =====
-- Lemmas on one round of the loop of `check` over the RFD directories, `check_number`.
use mathlib.Core.Path.{subst}
use multiplayer_fabric_manua.Common.{
  Bool, [], ◌∷◌, ◌++◌, Option, none, some, ◌≡◌, refl, arith, ◌↔◌, inl, inr, ◌∙◌, sym, ap,
}
use multiplayer_fabric_manua.Common.Tests.{Bool-cases, Option-cases, ◌==◌}
use multiplayer_fabric_manua.Common.Lists.{append-eq-nil, length}
use multiplayer_fabric_manua.Common.Dict.{lookup, store}
use multiplayer_fabric_manua.Common.Text.{Text, codes, text_eq, text_eq_iff, split}
use multiplayer_fabric_manua.Regex.{search_group}
use multiplayer_fabric_manua.RfdCheck.Patterns.{fm_re, title_re}
use multiplayer_fabric_manua.RfdCheck.Patterns.Numbered.{first_number}
use multiplayer_fabric_manua.RfdCheck.Patterns.Lines.{search-fm_re, search-title_re}
use multiplayer_fabric_manua.RfdCheck.Patterns.DirNames.{DirName, group-dir_re}
use multiplayer_fabric_manua.RfdCheck.FileTree.{
  Dir, Entry, missing, is_file, is_dir, unreadable, readable, ok, entry_at, listing, read_ignore,
}
use multiplayer_fabric_manua.RfdCheck.FileTree.Outcomes.{Outcome-cases, ok-pair}
use multiplayer_fabric_manua.RfdCheck.Numbers.{
  Problems, Seen, org_problems, serial_problems, field_problems, title_problems, body_problems,
  index_problems, check_number, dir_number,
}

-- The page names the number in its front matter and in its title: on the first lines of the two
-- forms, each.
abbrev pub Names : Text → Text → Type 0
Names body num =
    (first_number (codes "rfd: \"") (codes "\"") (split b'\n' body) ≡ some num)
    × (first_number (codes "title: \"RFD ") (codes ":") (split b'\n' body) ≡ some num)

-- The organization's digit comes first.
abbrev pub HasOrg : Text → Type 0
HasOrg num = (rest : Text) × (num ≡ b'2' ∷ rest)

-- An entry is a page that can be read, which names the number.
abbrev pub IsPage : Entry → Text → Type 0
IsPage index num =
    (utf8 : Bool) × (body : Text) × (index ≡ is_file (readable utf8 body)) × Names body num

-- The directory `d` of rfd/ is in order, with the number `num`.
abbrev pub IsInOrder : Dir → Text → Text → Type 0
IsInOrder rfd d num =
    DirName d num × HasOrg num × IsPage (entry_at (listing (entry_at rfd d)) (codes "index.md")) num

org_problems-eq-nil : (d num : Text) → length num ≡ 4 → (org_problems d num ≡ []) ↔ HasOrg num
unfolding org_problems text_eq
org_problems-eq-nil d [] l = absurd (omega arith)
org_problems-eq-nil d (c ∷ rest) l = elim (Bool-cases (c == b'2')) [
  | inl e ↦ (λ h. (rest, ground arith), λ h. ground arith)
  | inr e ↦ (λ h. ground arith, λ (r, q). ground arith)
]

serial_problems-eq-nil :
    (d num : Text) (seen : Seen) → (serial_problems d num seen ≡ []) ↔ (lookup num seen ≡ none)
unfolding serial_problems
serial_problems-eq-nil d num seen = ground arith

field_problems-eq-nil :
    (d num : Text) (o : Option Text) → (field_problems d num o ≡ []) ↔ (o ≡ some num)
unfolding field_problems
field_problems-eq-nil d num none = (λ h. cc, λ h. cc)
field_problems-eq-nil d num (some g) = ground (arith, text_eq_iff g num)

title_problems-eq-nil :
    (d num : Text) (o : Option Text) → (title_problems d num o ≡ []) ↔ (o ≡ some num)
unfolding title_problems
title_problems-eq-nil d num none = (λ h. cc, λ h. cc)
title_problems-eq-nil d num (some g) = ground (arith, text_eq_iff g num)

body_problems-eq-nil : (d num body : Text) → (body_problems d num body ≡ []) ↔ Names body num
unfolding body_problems
body_problems-eq-nil d num body = grind (
  arith,
  append-eq-nil,
  field_problems-eq-nil d num (search_group fm_re body),
  title_problems-eq-nil d num (search_group title_re body),
  search-fm_re body,
  search-title_re body,
)

index_problems-eq-nil :
    (d num : Text) (index : Entry) → (index_problems d num index ≡ ok []) ↔ IsPage index num
unfolding index_problems read_ignore
index_problems-eq-nil d num missing = (λ h. ground arith, λ h. ground arith)
index_problems-eq-nil d num (is_dir x) = (λ h. ground arith, λ h. ground arith)
index_problems-eq-nil d num (is_file unreadable) = (λ h. ground arith, λ h. ground arith)
index_problems-eq-nil d num (is_file (readable utf8 body)) = (
  λ h. (utf8, body, refl, (body_problems-eq-nil d num body).0 (cc)),
  λ (x, b, e, n).
      let same : b ≡ body = cc in
      ap ok ((body_problems-eq-nil d num body).1 (subst (λ y. Names y num) same n)),
)

dir_number_iff : (d num : Text) → (dir_number d ≡ some num) ↔ DirName d num
unfolding dir_number
dir_number_iff d num = group-dir_re d num

-- The parts of the problems of a round.
join-eq-nil : (xs ys zs : Problems) → (xs ++ (ys ++ zs) ≡ []) ↔ ((xs ≡ []) × (ys ≡ []) × (zs ≡ []))
join-eq-nil xs ys zs = (
  λ h.
      let (p, q) = (append-eq-nil xs (ys ++ zs)).0 h in
      let (q', r) = (append-eq-nil ys zs).0 q in (p, q', r),
  λ (p, q, r). (append-eq-nil xs (ys ++ zs)).1 (p, (append-eq-nil ys zs).1 (q, r)),
)

module _ (rfd : Dir) (seen seen' : Seen) (d num : Text) where
  abbrev index : Entry
  index = entry_at (listing (entry_at rfd d)) (codes "index.md")

  check_some-found :
      check_number rfd seen d (some num) ≡ ok ([], seen')
      → (org_problems d num ≡ [])
        × (serial_problems d num seen ≡ [])
        × (index_problems d num index ≡ ok [])
        × (seen' ≡ store num d seen)
  unfolding check_number
  check_some-found h = elim (Outcome-cases (index_problems d num index)) [
    | inl (rest, e) ↦
        let q : ok (org_problems d num ++ (serial_problems d num seen ++ rest), store num d seen)
            ≡ ok ([], seen') =
          rw e at h in
        let (none_left, same) = ok-pair q in
        let (p, p', p'') =
          (join-eq-nil (org_problems d num) (serial_problems d num seen) rest).0 none_left in
        (p, p', e ∙ ap ok p'', sym same)
    | inr (x, e) ↦ ground arith
  ]

  check_some-finds :
      org_problems d num ≡ []
      → serial_problems d num seen ≡ []
      → index_problems d num index ≡ ok []
      → check_number rfd seen d (some num) ≡ ok ([], store num d seen)
  unfolding check_number
  check_some-finds p p' p'' = rw (p'', p, p')

-- A round reports nothing and leaves `seen'` exactly when the directory is in order with some number
-- that `seen` did not have, and `seen'` is `seen` with that number stored.
pub check_number-clean :
    (rfd : Dir) (seen seen' : Seen) (d : Text)
    → (check_number rfd seen d (dir_number d) ≡ ok ([], seen'))
      ↔ ((num : Text) × IsInOrder rfd d num × (lookup num seen ≡ none) × (seen' ≡ store num d seen))
check_number-clean rfd seen seen' d = (there, back)
  where
    there :
        check_number rfd seen d (dir_number d) ≡ ok ([], seen')
        → (num : Text) × IsInOrder rfd d num × (lookup num seen ≡ none) × (seen' ≡ store num d seen)
    there h = elim (Option-cases (dir_number d)) [
      | inl e ↦ absurd (unfold check_number in ground arith)
      | inr (num, e) ↦
          let name = (dir_number_iff d num).0 e in
          let (_, _, _, l, _, _, _, _) = name in
          let (p, p', p'', q) = check_some-found rfd seen seen' d num (rw e at h) in
          (
            num,
            (name, (org_problems-eq-nil d num l).0 p, (index_problems-eq-nil d num _).0 p''),
            (serial_problems-eq-nil d num seen).0 p',
            q,
          )
    ]

    back :
        (num : Text) × IsInOrder rfd d num × (lookup num seen ≡ none) × (seen' ≡ store num d seen)
        → check_number rfd seen d (dir_number d) ≡ ok ([], seen')
    back (num, (name, org, page), fresh, e) =
        let (_, _, _, l, _, _, _, _) = name in
        rw ((dir_number_iff d num).1 name, e)
          (check_some-finds rfd seen seen' d num ((org_problems-eq-nil d num l).1 org)
            ((serial_problems-eq-nil d num seen).1 fresh) ((index_problems-eq-nil d num _).1 page))
