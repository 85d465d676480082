-- ===== src/PosixPath/Keeping.antt =====
-- What `normpath` makes of a path of names.
use mathlib.Core.Path.{subst}
use mathlib.Core.List.{
  reverse, reverse-cons, reverse-append, reverse-reverse, append_assoc, append-nil,
}
use multiplayer_fabric_manua.Common.{
  ℕ, zero, suc, Bool, true, false, List, [], ◌∷◌, ◌++◌, ◌≡◌, ◌≢◌, refl, arith, sym, ap, ◌∙◌,
}
use multiplayer_fabric_manua.Common.Lists.{All, All-append, length, length-append}
use multiplayer_fabric_manua.Common.Text.{Text, codes, text_eq, starts_with, split}
use multiplayer_fabric_manua.PosixPath.{keep_component, keep_components, leading_slashes, normpath}
use multiplayer_fabric_manua.PosixPath.Components.{
  is_name, IsName, slashed, split-slashed, names-IsPart, is_relative, slashed-is_relative,
  relative-starts_with, slashed-or_dot,
}

keep-name :
    (absolute : Bool) (kept : List Text) (p : Text)
    → IsName p
    → keep_component absolute kept p ≡ p ∷ kept
unfolding keep_component is_name
keep-name absolute [] p h = ground arith
keep-name absolute (t ∷ kept) p h = ground arith

up-not_dot : text_eq (codes "..") (codes ".") ≡ false
unfolding text_eq
up-not_dot = refl

up-is_up : text_eq (codes "..") (codes "..") ≡ true
unfolding text_eq
up-is_up = refl

keep-up :
    (kept : List Text) (t : Text) → IsName t → keep_component false (t ∷ kept) (codes "..") ≡ kept
unfolding keep_component is_name
keep-up kept t h = ground (arith, up-not_dot, up-is_up)

keep_names :
    (absolute : Bool) (ps kept rest : List Text)
    → All IsName ps
    → keep_components absolute kept (ps ++ rest)
      ≡ keep_components absolute (reverse ps ++ kept) rest
unfolding keep_components
keep_names absolute [] kept rest h = refl
keep_names absolute (p ∷ ps) kept rest (h, hs) =
    ap (λ k. keep_components absolute k (ps ++ rest)) (keep-name absolute kept p h)
    ∙ (keep_names absolute ps (p ∷ kept) rest hs
        ∙ ap (λ k. keep_components absolute k rest)
            (sym (append_assoc (reverse ps) (p ∷ []) kept)
              ∙ ap (λ l. l ++ kept) (sym (reverse-cons p ps))))

-- `..`, a number of times.
abbrev pub up_list : ℕ → List Text
up_list zero = []
up_list (suc n) = codes ".." ∷ up_list n

keep_ups :
    (ks kept rest : List Text)
    → All IsName ks
    → keep_components false (ks ++ kept) (up_list (length ks) ++ rest)
      ≡ keep_components false kept rest
unfolding keep_components
keep_ups [] kept rest h = refl
keep_ups (k ∷ ks) kept rest (h, hs) =
    ap (λ l. keep_components false l (up_list (length ks) ++ rest)) (keep-up (ks ++ kept) k h)
    ∙ keep_ups ks kept rest hs

snoc-All {ℓ κ} :
    {A : Type ℓ} (P : A → Type κ) (xs : List A) (x : A) → All P xs → P x → All P (xs ++ x ∷ [])
snoc-All P [] x h p = (p, tt)
snoc-All P (y ∷ xs) x h p = (h.0, snoc-All P xs x h.1 p)

reverse-All {ℓ κ} : {A : Type ℓ} (P : A → Type κ) (xs : List A) → All P xs → All P (reverse xs)
reverse-All P [] h = tt
reverse-All P (x ∷ xs) h =
    subst (All P) (sym (reverse-cons x xs)) (snoc-All P (reverse xs) x (reverse-All P xs h.1) h.0)

length-reverse {ℓ} : {A : Type ℓ} (xs : List A) → length (reverse xs) ≡ length xs
length-reverse [] = refl
length-reverse (x ∷ xs) =
    let e = length-append (reverse xs) (x ∷ []) in
    let ih = length-reverse xs in ap length (reverse-cons x xs) ∙ grind arith

abbrev kept_of : Bool → List Text → List Text
kept_of absolute ps = reverse (keep_components absolute [] ps)

keep_only_names :
    (absolute : Bool) (kept ts : List Text)
    → All IsName ts
    → keep_components absolute kept ts ≡ reverse ts ++ kept
keep_only_names absolute kept ts h =
    ap (keep_components absolute kept) (sym (append-nil ts))
    ∙ (keep_names absolute ts kept [] h ∙ (unfold keep_components in refl))

kept-up_again :
    (ps hs ts : List Text)
    → All IsName ps
    → All IsName hs
    → All IsName ts
    → kept_of false ((ps ++ hs) ++ (up_list (length hs) ++ ts)) ≡ ps ++ ts
kept-up_again ps hs ts hp hh ht =
    ap reverse (
      keep_names false (ps ++ hs) [] (up_list (length hs) ++ ts) (All-append IsName ps hs hp hh)
      ∙ (ap (λ k. keep_components false k (up_list (length hs) ++ ts))
            (append-nil (reverse (ps ++ hs)) ∙ reverse-append ps hs)
          ∙ (again
              ∙ (keep_ups (reverse hs) (reverse ps) ts (reverse-All IsName hs hh)
                  ∙ (keep_only_names false (reverse ps) ts ht ∙ sym (reverse-append ps ts))))))
    ∙ reverse-reverse (ps ++ ts)
  where
    again :
        keep_components false (reverse hs ++ reverse ps) (up_list (length hs) ++ ts)
        ≡ keep_components false (reverse hs ++ reverse ps) (up_list (length (reverse hs)) ++ ts)
    again =
        ap (λ n. keep_components false (reverse hs ++ reverse ps) (up_list n ++ ts))
          (sym (length-reverse hs))

kept-absolute : (ps : List Text) → All IsName ps → kept_of true ([] ∷ ps) ≡ ps
unfolding keep_components keep_component
kept-absolute ps h =
    ap reverse (keep_only_names true [] ps h ∙ append-nil (reverse ps)) ∙ reverse-reverse ps

split-absolute : (s : Text) → split b'/' (b'/' ∷ s) ≡ [] ∷ split b'/' s
unfolding split
split-absolute s = refl

pub some_more : (ps : List Text) (t : Text) (ts : List Text) → (ps ++ t ∷ ts) ≢ []
some_more [] t ts e = cc
some_more (p ∷ ps) t ts e = cc

leading_slashes-relative : (s : Text) → is_relative s ≡ true → leading_slashes s ≡ []
unfolding leading_slashes
leading_slashes-relative s h = rw (relative-starts_with s h) refl

leading_slashes-absolute :
    (s : Text) → is_relative s ≡ true → leading_slashes (b'/' ∷ s) ≡ codes "/"
unfolding leading_slashes starts_with
leading_slashes-absolute [] h = absurd (ground arith)
leading_slashes-absolute (c ∷ s) h = ground arith

-- A path down through `ps` and `hs`, up to `ps` and down along `ts`.
pub normpath-up_again :
    (s : Text) (ps hs ts : List Text)
    → All IsName ps
    → All IsName hs
    → All IsName ts
    → (ps ++ ts) ≢ []
    → is_relative s ≡ true
    → split b'/' s ≡ (ps ++ hs) ++ (up_list (length hs) ++ ts)
    → normpath s ≡ slashed (ps ++ ts)
unfolding normpath
normpath-up_again s ps hs ts hp hh ht ne hr e =
    rw (leading_slashes-relative s hr, e, kept-up_again ps hs ts hp hh ht)
      (slashed-or_dot (ps ++ ts) (names-IsPart (ps ++ ts) (All-append IsName ps ts hp ht)) ne)

-- An absolute path of names is its own normal form.
pub normpath-absolute :
    (p : Text) (ps : List Text)
    → All IsName (p ∷ ps)
    → normpath (b'/' ∷ slashed (p ∷ ps)) ≡ b'/' ∷ slashed (p ∷ ps)
unfolding normpath
normpath-absolute p ps h =
    let hp = names-IsPart (p ∷ ps) h in
    rw
      (
        leading_slashes-absolute (slashed (p ∷ ps)) (slashed-is_relative p ps hp),
        split-absolute (slashed (p ∷ ps)),
        split-slashed p ps hp,
        kept-absolute (p ∷ ps) h,
      )
      refl
