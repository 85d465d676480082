-- ===== src/PosixPath/Relative.antt =====
-- What `relpath` gives for two paths of names, when the one is not the other nor leads to it.
use mathlib.Core.Path.{subst}
use mathlib.Core.List.{append_assoc, append-nil, foldl}
use multiplayer_fabric_manua.Common.{
  List, [], ◌∷◌, ◌++◌, ◌≡◌, ◌≢◌, refl, arith, sym, ap, ◌∙◌, inl, inr, map,
}
use multiplayer_fabric_manua.Common.Tests.{Bool-cases}
use multiplayer_fabric_manua.Common.Lists.{All, All-append, All-append_right, length}
use multiplayer_fabric_manua.Common.Text.{
  Text, codes, text_eq, text_eq_iff, text_eq_refl, split, join_with,
}
use multiplayer_fabric_manua.PosixPath.{
  ends_in_slash, join, normpath, abspath, components, relative, join_all, relpath,
}
use multiplayer_fabric_manua.PosixPath.Components.{
  is_part, IsPart, IsName, names-IsPart, slashed, slashed-is_relative, relative-starts_with,
  split-slashed,
}
use multiplayer_fabric_manua.PosixPath.Keeping.{up_list, normpath-absolute, some_more}
use multiplayer_fabric_manua.PosixPath.Folders.{
  slashed-append, slashed-ends_in_slash, slashed-is_empty, ends_in_slash-append, join-slashed,
}

components-parts : (ps : List Text) → All IsPart ps → components ps ≡ ps
unfolding is_part
components-parts [] h = refl
components-parts ([] ∷ ps) h = absurd (ground arith)
components-parts ((c ∷ p) ∷ ps) h = ap (λ l. (c ∷ p) ∷ l) (components-parts ps h.1)

-- An absolute path of names.
abbrev pub rooted : List Text → Text
rooted cs = b'/' ∷ slashed cs

join-rooted :
    (cs : List Text) (p : Text) (ps : List Text)
    → All IsPart cs
    → All IsPart (p ∷ ps)
    → join (rooted cs) (slashed (p ∷ ps)) ≡ rooted (cs ++ p ∷ ps)
unfolding join ends_in_slash
join-rooted [] p ps hc h =
    rw (relative-starts_with (slashed (p ∷ ps)) (slashed-is_relative p ps h))
      (unfold join_with in refl)
join-rooted (c ∷ cs) p ps hc h =
    rw
      (
        relative-starts_with (slashed (p ∷ ps)) (slashed-is_relative p ps h),
        ends_in_slash-append (codes "/") (slashed (c ∷ cs)) (slashed-is_empty c cs hc),
        slashed-ends_in_slash c cs hc,
        slashed-append c cs p ps,
      )
      refl

components_of-rooted :
    (p : Text) (ps : List Text)
    → All IsName (p ∷ ps)
    → components (split b'/' (normpath (rooted (p ∷ ps)))) ≡ p ∷ ps
components_of-rooted p ps h =
    let hp = names-IsPart (p ∷ ps) h in
    rw (normpath-absolute p ps h, split-absolute, split-slashed p ps hp)
      (components-parts (p ∷ ps) hp)
  where
    split-absolute : split b'/' (rooted (p ∷ ps)) ≡ [] ∷ split b'/' (slashed (p ∷ ps))
    split-absolute = unfold split in refl

-- The components of the absolute path of a path of names.
components-abspath :
    (cs : List Text) (p : Text) (ps : List Text)
    → All IsName cs
    → All IsName (p ∷ ps)
    → components (split b'/' (abspath (rooted cs) (slashed (p ∷ ps)))) ≡ cs ++ p ∷ ps
unfolding abspath
components-abspath cs p ps hc h =
    ap (λ x. components (split b'/' (normpath x)))
      (join-rooted cs p ps (names-IsPart cs hc) (names-IsPart (p ∷ ps) h))
    ∙ whole cs hc
  where
    whole :
        (cs : List Text)
        → All IsName cs
        → components (split b'/' (normpath (rooted (cs ++ p ∷ ps)))) ≡ cs ++ p ∷ ps
    whole [] hc = components_of-rooted p ps h
    whole (c ∷ cs) hc =
        components_of-rooted c (cs ++ p ∷ ps) (All-append IsName (c ∷ cs) (p ∷ ps) hc h)

relative-append : (cs hs qs : List Text) → relative (cs ++ hs) (cs ++ qs) ≡ relative hs qs
unfolding relative
relative-append [] hs qs = refl
relative-append (c ∷ cs) hs qs = rw (text_eq_refl c) (relative-append cs hs qs)

-- The folders `hs` do not begin with the path `qs`.
abbrev pub IsOutside : List Text → List Text → Type 0
IsOutside hs qs = (r : List Text) → hs ≢ qs ++ r

-- Where the ways from the root to a folder and to a path part.
pub record Fork (hs qs : List Text) : Type 0 where
  pub common : List Text
  pub left : List Text
  pub next : Text
  pub rest : List Text
  pub start_eq : hs ≡ common ++ left
  pub path_eq : qs ≡ common ++ next ∷ rest
  pub relative_eq : relative hs qs ≡ up_list (length left) ++ next ∷ rest

map-up_list : (l : List Text) → map (λ _. codes "..") l ≡ up_list (length l)
map-up_list [] = refl
map-up_list (x ∷ l) = ap (λ r. codes ".." ∷ r) (map-up_list l)

pub fork : (hs qs : List Text) → IsOutside hs qs → Fork hs qs
unfolding relative
fork hs [] h = absurd (h hs refl)
fork [] (b ∷ qs) h = record {
  common = [];
  left = [];
  next = b;
  rest = qs;
  start_eq = refl;
  path_eq = refl;
  relative_eq = refl;
}
fork (a ∷ hs) (b ∷ qs) h = elim (Bool-cases (text_eq a b)) [
  | inl e ↦
      let a_b : a ≡ b = (text_eq_iff a b).0 e in
      let f = fork hs qs (λ r k. h r (outside_tail r a_b k)) in
      record {
        common = a ∷ f.common;
        left = f.left;
        next = f.next;
        rest = f.rest;
        start_eq = ap (λ l. a ∷ l) f.start_eq;
        path_eq = ap (λ x. x ∷ qs) (sym a_b) ∙ ap (λ l. a ∷ l) f.path_eq;
        relative_eq = rw e f.relative_eq;
      }
  | inr e ↦ record {
    common = [];
    left = a ∷ hs;
    next = b;
    rest = qs;
    start_eq = refl;
    path_eq = refl;
    relative_eq = rw e (ap (λ l. l ++ b ∷ qs) (map-up_list (a ∷ hs)));
  }
]
  where
    outside_tail : (r : List Text) → a ≡ b → hs ≡ qs ++ r → a ∷ hs ≡ (b ∷ qs) ++ r
    outside_tail r e k = cc

pub up_list-IsPart : (l : List Text) → All IsPart (up_list (length l))
unfolding is_part
up_list-IsPart [] = tt
up_list-IsPart (x ∷ l) = (refl, up_list-IsPart l)

foldl-join :
    (p : Text) (ps qs : List Text)
    → All IsPart (p ∷ ps)
    → All IsPart qs
    → foldl join (slashed (p ∷ ps)) qs ≡ slashed ((p ∷ ps) ++ qs)
unfolding join_with
foldl-join p ps [] h k = ap slashed (sym (append-nil (p ∷ ps)))
foldl-join p ps (q ∷ qs) h k =
    ap (λ x. foldl join x qs) (one ∙ sym (slashed-append p ps q []))
    ∙ (foldl-join p (ps ++ q ∷ []) qs (All-append IsPart (p ∷ ps) (q ∷ []) h (k.0, tt)) k.1
        ∙ ap slashed (append_assoc (p ∷ ps) (q ∷ []) qs))
  where
    one : join (slashed (p ∷ ps)) q ≡ slashed (p ∷ ps) ++ b'/' ∷ slashed (q ∷ [])
    one = join-slashed p ps (slashed (q ∷ [])) h (slashed-is_relative q [] (k.0, tt))

join_all-slashed : (ps : List Text) → All IsPart ps → ps ≢ [] → join_all ps ≡ slashed ps
unfolding join_all join_with
join_all-slashed [] h ne = absurd (ne refl)
join_all-slashed (p ∷ ps) h ne = foldl-join p [] ps (h.0, tt) h.1

-- The relative path to `q ∷ qs` from a folder outside of it.
pub relpath-slashed :
    (cs : List Text) (h : Text) (hs : List Text) (q : Text) (qs : List Text)
    → All IsName cs
    → All IsName (h ∷ hs)
    → All IsName (q ∷ qs)
    → (f : Fork (h ∷ hs) (q ∷ qs))
    → relpath (rooted cs) (slashed (q ∷ qs)) (slashed (h ∷ hs))
      ≡ slashed (up_list (length f.left) ++ f.next ∷ f.rest)
unfolding relpath
relpath-slashed cs h hs q qs nc nh nq f =
    rw
      (
        components-abspath cs h hs nc nh,
        components-abspath cs q qs nc nq,
        relative-append cs (h ∷ hs) (q ∷ qs),
        f.relative_eq,
      )
      (join_all-slashed (up_list (length f.left) ++ f.next ∷ f.rest)
        (All-append IsPart (up_list (length f.left)) (f.next ∷ f.rest) (up_list-IsPart f.left)
          (names-IsPart (f.next ∷ f.rest) names))
        (some_more (up_list (length f.left)) f.next f.rest))
  where
    names : All IsName (f.next ∷ f.rest)
    names = All-append_right IsName f.common (f.next ∷ f.rest) (subst (All IsName) f.path_eq nq)
