-- ===== src/RfdCheck/Links/Clean.antt =====
-- Lemmas on the walk for broken links, `link_problems`.
use mathlib.Core.List.{Memᴰ}
use multiplayer_fabric_manua.Common.{true, List, [], ◌∷◌, ◌≡◌, refl, arith, ◌↔◌, inl, inr, ap}
use multiplayer_fabric_manua.Common.Tests.{Bool-cases}
use multiplayer_fabric_manua.Common.Lists.{All}
use multiplayer_fabric_manua.Common.Text.{Text, codes, ends_with}
use multiplayer_fabric_manua.PosixPath.{join}
use multiplayer_fabric_manua.Regex.{find_all}
use multiplayer_fabric_manua.RfdCheck.Patterns.{link_re}
use multiplayer_fabric_manua.RfdCheck.Patterns.LinkTargets.{PointsTo, find_all-link}
use multiplayer_fabric_manua.RfdCheck.FileTree.{
  File, unreadable, readable, Dir, ok, Visit, walk, read_file, entry_at, is_directory,
}
use multiplayer_fabric_manua.RfdCheck.FileTree.Outcomes.{both-ok-nil, ok-injective}
use multiplayer_fabric_manua.RfdCheck.Links.{
  target_problems, file_links, files_links, visit_links, link_problems,
}

module _ (rfd : Dir) where
  -- A page can be read, and each folder that it points to is there.
  abbrev pub IsLinked : File → Type 0
  IsLinked unreadable = ⊥
  IsLinked (readable utf8 body) =
      (target : Text) → PointsTo body target → is_directory (entry_at rfd target) ≡ true

  abbrev pub FileLinked : Text × File → Type 0
  FileLinked f = ends_with f.0 (codes ".md") ≡ true → IsLinked f.1

  AllThere : List Text → Type 0
  AllThere ts = (t : Text) → Memᴰ t ts → is_directory (entry_at rfd t) ≡ true

  AllThere-cons :
      (t : Text) (ts : List Text)
      → is_directory (entry_at rfd t) ≡ true
      → AllThere ts
      → AllThere (t ∷ ts)
  unfolding AllThere
  AllThere-cons t ts e h t' (Memᴰ.head q) = rw q e
  AllThere-cons t ts e h t' (Memᴰ.tail m) = h t' m

  target_problems-eq-nil :
      (p : Text) (ts : List Text) → (target_problems rfd p ts ≡ []) ↔ AllThere ts
  unfolding target_problems AllThere
  target_problems-eq-nil p [] = (λ e t m. elim m [ ], λ h. refl)
  target_problems-eq-nil p (t ∷ ts) = elim (Bool-cases (is_directory (entry_at rfd t))) [
    | inl e ↦ (
      λ h. AllThere-cons t ts e ((target_problems-eq-nil p ts).0 (rw e at h)),
      λ h. rw e ((target_problems-eq-nil p ts).1 (λ t' m. h t' (Memᴰ.tail m))),
    )
    | inr e ↦ (λ h. absurd (ground arith), λ h. absurd (ground (arith, h t (Memᴰ.head refl))))
  ]

  page-eq-nil :
      (p body : Text)
      → (target_problems rfd p (find_all link_re body) ≡ []) ↔ IsLinked (readable true body)
  unfolding AllThere
  page-eq-nil p body =
      let q = target_problems-eq-nil p (find_all link_re body) in
      (
        λ e t k. q.0 e t ((find_all-link body t).1 k),
        λ h. q.1 (λ t m. h t ((find_all-link body t).0 m)),
      )

  file_links-eq-nil : (cur : Text) (f : Text × File) → (file_links rfd cur f ≡ ok []) ↔ FileLinked f
  unfolding file_links read_file
  file_links-eq-nil cur (f, unreadable) = elim (Bool-cases (ends_with f (codes ".md"))) [
    | inl e ↦ (λ h. absurd (ground arith), λ h. absurd (h e))
    | inr e ↦ (λ h k. absurd (ground arith), λ h. rw e)
  ]
  file_links-eq-nil cur (f, readable utf8 body) = elim (Bool-cases (ends_with f (codes ".md"))) [
    | inl e ↦ (
      λ h k. (page-eq-nil (join cur f) body).0 (ok-injective (rw e at h)),
      λ h. rw e (ap ok ((page-eq-nil (join cur f) body).1 (h e))),
    )
    | inr e ↦ (λ h k. absurd (ground arith), λ h. rw e)
  ]

  files_links-eq-nil :
      (cur : Text) (fs : List (Text × File)) → (files_links rfd cur fs ≡ ok []) ↔ All FileLinked fs
  unfolding files_links
  files_links-eq-nil cur [] = (λ e. tt, λ h. refl)
  files_links-eq-nil cur (f ∷ fs) =
      both-ok-nil (file_links rfd cur f) (files_links rfd cur fs) (file_links-eq-nil cur f)
        (files_links-eq-nil cur fs)

  visit_links-eq-nil :
      (vs : List Visit) → (visit_links rfd vs ≡ ok []) ↔ All (λ (v : Visit). All FileLinked v.1) vs
  unfolding visit_links
  visit_links-eq-nil [] = (λ e. tt, λ h. refl)
  visit_links-eq-nil ((cur, fs) ∷ vs) =
      both-ok-nil (files_links rfd cur fs) (visit_links rfd vs) (files_links-eq-nil cur fs)
        (visit_links-eq-nil vs)

  -- No link is reported, and no page raises, exactly when every page below rfd/ can be read and
  -- points to folders that are there.
  pub link_problems-eq-nil :
      (rfd_root : Text)
      → (link_problems rfd rfd_root ≡ ok [])
        ↔ All (λ (v : Visit). All FileLinked v.1) (walk rfd_root rfd)
  unfolding link_problems
  link_problems-eq-nil rfd_root = visit_links-eq-nil (walk rfd_root rfd)
