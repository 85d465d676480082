-- ===== src/PageMeta/Graph/Links.antt =====
-- Which pages a page links to, in `_scan` of scripts/decision-meta.py.
use mathlib.Core.Path.{subst}
use mathlib.Core.List.{Memᴰ}
use multiplayer_fabric_manua.Common.{
  true, false, List, [], ◌∷◌, Option, none, some, ◌≡◌, ◌≢◌, ◌↔◌, ◌⊎◌, inl, inr, arith, refl, sym,
  ap,
}
use multiplayer_fabric_manua.Common.Tests.{Bool-cases}
use multiplayer_fabric_manua.Common.Text.{Text, text_eq, text_eq_iff}
use multiplayer_fabric_manua.Regex.{find_all}
use multiplayer_fabric_manua.PosixPath.{dirname}
use multiplayer_fabric_manua.PageMeta.Patterns.{link_re, stem_re}
use multiplayer_fabric_manua.PageMeta.Paths.{resolve}
use multiplayer_fabric_manua.PageMeta.Titles.{parse_frontmatter}
use multiplayer_fabric_manua.PageMeta.Graph.{
  add, add_resolved, add_links, add_stems, is_page_link, page_info,
}
use multiplayer_fabric_manua.PageMeta.Related.Members.{mem-add}

-- A target that is found counts: it is no empty key, and not the page itself.
abbrev pub Counts : Text → Option Text → Text → Type 0
Counts key found t = (found ≡ some t) × (t ≢ []) × (t ≢ key)

mem-add_resolved :
    (key : Text) (found : Option Text) (out : List Text) (t : Text)
    → Memᴰ t (add_resolved key found out) ↔ (Memᴰ t out ⊎ Counts key found t)
unfolding add_resolved
mem-add_resolved key none out t = (inl, elim [ inl m ↦ m | inr c ↦ absurd (ground (arith, c.0)) ])
mem-add_resolved key (some []) out t = (inl, elim [ inl m ↦ m | inr c ↦ absurd (c.1 (cc (c.0))) ])
mem-add_resolved key (some (c ∷ r)) out t = elim (Bool-cases (text_eq (c ∷ r) key)) [
  | inl e ↦
      let same : c ∷ r ≡ key = (text_eq_iff (c ∷ r) key).0 e in
      rw e (inl, elim [ inl m ↦ m | inr k ↦ absurd (itself same k) ])
  | inr e ↦
      let other : c ∷ r ≢ key = λ q. ground (arith, (text_eq_iff (c ∷ r) key).1 q) in
      rw e (there other, back)
]
  where
    itself : c ∷ r ≡ key → ¬ Counts key (some (c ∷ r)) t
    itself same (q, _, ne) = ne (cc)

    there : c ∷ r ≢ key → Memᴰ t (add (c ∷ r) out) → Memᴰ t out ⊎ Counts key (some (c ∷ r)) t
    there other m = elim ((mem-add t (c ∷ r) out).0 m) [
      | inl k ↦ inl k
      | inr q ↦ inr (ap some (sym q), (λ z. cc), (λ z. other (cc)))
    ]

    back : Memᴰ t out ⊎ Counts key (some (c ∷ r)) t → Memᴰ t (add (c ∷ r) out)
    back (inl m) = (mem-add t (c ∷ r) out).1 (inl m)
    back (inr (q, _, _)) = (mem-add t (c ∷ r) out).1 (inr (cc))

-- A link of the text leads to `t`, and a stem of the front matter does.
abbrev pub LinkTo : Text → List Text → Text → Type 0
LinkTo key links t =
    (link : Text) × Memᴰ link links
    × (is_page_link link ≡ true)
    × Counts key (resolve (dirname key) link) t

abbrev pub StemTo : Text → List Text → Text → Type 0
StemTo key stems t = (stem : Text) × Memᴰ stem stems × Counts key (resolve (dirname key) stem) t

mem-add_links :
    (key : Text) (links out : List Text) (t : Text)
    → Memᴰ t (add_links key (dirname key) links out) ↔ (Memᴰ t out ⊎ LinkTo key links t)
unfolding add_links
mem-add_links key [] out t = (inl, elim [ inl m ↦ m | inr (l, m, _, _) ↦ elim m [ ] ])
mem-add_links key (l ∷ ls) out t = elim (Bool-cases (is_page_link l)) [
  | inl e ↦
      let q = mem-add_links key ls (add_resolved key (resolve (dirname key) l) out) t in
      let a = mem-add_resolved key (resolve (dirname key) l) out t in
      rw e ((λ m. there e a.0 (q.0 m)), λ m. q.1 (back a.1 m))
  | inr e ↦ let q = mem-add_links key ls out t in rw e ((λ m. later (q.0 m)), λ m. q.1 (passed e m))
]
  where
    later : Memᴰ t out ⊎ LinkTo key ls t → Memᴰ t out ⊎ LinkTo key (l ∷ ls) t
    later (inl m) = inl m
    later (inr (k, m, p, c)) = inr (k, Memᴰ.tail m, p, c)

    there :
        is_page_link l ≡ true
        → (Memᴰ t (add_resolved key (resolve (dirname key) l) out)
            → Memᴰ t out ⊎ Counts key (resolve (dirname key) l) t)
        → Memᴰ t (add_resolved key (resolve (dirname key) l) out) ⊎ LinkTo key ls t
        → Memᴰ t out ⊎ LinkTo key (l ∷ ls) t
    there e a (inl m) = elim (a m) [ inl k ↦ inl k | inr c ↦ inr (l, Memᴰ.head refl, e, c) ]
    there e a (inr (k, m, p, c)) = inr (k, Memᴰ.tail m, p, c)

    back :
        (Memᴰ t out ⊎ Counts key (resolve (dirname key) l) t
          → Memᴰ t (add_resolved key (resolve (dirname key) l) out))
        → Memᴰ t out ⊎ LinkTo key (l ∷ ls) t
        → Memᴰ t (add_resolved key (resolve (dirname key) l) out) ⊎ LinkTo key ls t
    back a (inl m) = inl (a (inl m))
    back a (inr (k, Memᴰ.head q, p, c)) =
        inl (a (inr (subst (λ x. Counts key (resolve (dirname key) x) t) q c)))
    back a (inr (k, Memᴰ.tail m, p, c)) = inr (k, m, p, c)

    passed :
        is_page_link l ≡ false → Memᴰ t out ⊎ LinkTo key (l ∷ ls) t → Memᴰ t out ⊎ LinkTo key ls t
    passed e (inl m) = inl m
    passed e (inr (k, Memᴰ.head q, p, c)) =
        let p' : is_page_link l ≡ true = subst (λ x. is_page_link x ≡ true) q p in
        absurd (ground arith)
    passed e (inr (k, Memᴰ.tail m, p, c)) = inr (k, m, p, c)

mem-add_stems :
    (key : Text) (stems out : List Text) (t : Text)
    → Memᴰ t (add_stems key (dirname key) stems out) ↔ (Memᴰ t out ⊎ StemTo key stems t)
unfolding add_stems
mem-add_stems key [] out t = (inl, elim [ inl m ↦ m | inr (l, m, _) ↦ elim m [ ] ])
mem-add_stems key (l ∷ ls) out t =
    let q = mem-add_stems key ls (add_resolved key (resolve (dirname key) l) out) t in
    let a = mem-add_resolved key (resolve (dirname key) l) out t in
    ((λ m. there a.0 (q.0 m)), λ m. q.1 (back a.1 m))
  where
    there :
        (Memᴰ t (add_resolved key (resolve (dirname key) l) out)
          → Memᴰ t out ⊎ Counts key (resolve (dirname key) l) t)
        → Memᴰ t (add_resolved key (resolve (dirname key) l) out) ⊎ StemTo key ls t
        → Memᴰ t out ⊎ StemTo key (l ∷ ls) t
    there a (inl m) = elim (a m) [ inl k ↦ inl k | inr c ↦ inr (l, Memᴰ.head refl, c) ]
    there a (inr (k, m, c)) = inr (k, Memᴰ.tail m, c)

    back :
        (Memᴰ t out ⊎ Counts key (resolve (dirname key) l) t
          → Memᴰ t (add_resolved key (resolve (dirname key) l) out))
        → Memᴰ t out ⊎ StemTo key (l ∷ ls) t
        → Memᴰ t (add_resolved key (resolve (dirname key) l) out) ⊎ StemTo key ls t
    back a (inl m) = inl (a (inl m))
    back a (inr (k, Memᴰ.head q, c)) =
        inl (a (inr (subst (λ x. Counts key (resolve (dirname key) x) t) q c)))
    back a (inr (k, Memᴰ.tail m, c)) = inr (k, m, c)

-- A page links to `t` exactly when a link in its text to a page, or a file name in its front matter,
-- is resolved from its folder to `t`, which is neither empty nor the page itself.
pub mem-page_info :
    (key text t : Text)
    → Memᴰ t (page_info key text).out ↔ (
        LinkTo key (find_all link_re text) t
        ⊎ StemTo key (find_all stem_re (parse_frontmatter text)) t)
unfolding page_info
mem-page_info key text t =
    let linked = add_links key (dirname key) (find_all link_re text) [] in
    let q = mem-add_stems key (find_all stem_re (parse_frontmatter text)) linked t in
    let a = mem-add_links key (find_all link_re text) [] t in
    ((λ m. there a.0 (q.0 m)), λ m. q.1 (back a.1 m))
  where
    linked : List Text
    linked = add_links key (dirname key) (find_all link_re text) []

    there :
        (Memᴰ t linked → Memᴰ t [] ⊎ LinkTo key (find_all link_re text) t)
        → Memᴰ t linked ⊎ StemTo key (find_all stem_re (parse_frontmatter text)) t
        → LinkTo key (find_all link_re text) t
          ⊎ StemTo key (find_all stem_re (parse_frontmatter text)) t
    there a (inl m) = elim (a m) [ inl k ↦ elim k [ ] | inr h ↦ inl h ]
    there a (inr h) = inr h

    back :
        (Memᴰ t [] ⊎ LinkTo key (find_all link_re text) t → Memᴰ t linked)
        → LinkTo key (find_all link_re text) t
          ⊎ StemTo key (find_all stem_re (parse_frontmatter text)) t
        → Memᴰ t linked ⊎ StemTo key (find_all stem_re (parse_frontmatter text)) t
    back a (inl h) = inl (a (inr h))
    back a (inr h) = inr h
