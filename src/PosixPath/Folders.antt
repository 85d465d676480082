-- ===== src/PosixPath/Folders.antt =====
-- The folder of a path of names, and what `join` puts behind it.
use mathlib.Core.List.{append_assoc}
use multiplayer_fabric_manua.Common.{
  true, false, List, [], ◌∷◌, ◌++◌, ◌≡◌, refl, arith, sym, ap, ◌∙◌,
}
use multiplayer_fabric_manua.Common.Tests.{◌==◌}
use multiplayer_fabric_manua.Common.Lists.{All}
use multiplayer_fabric_manua.Common.Text.{Text, codes, join_with}
use multiplayer_fabric_manua.PosixPath.{
  is_empty, ends_in_slash, join, split_last, strip_slashes, dirname,
}
use multiplayer_fabric_manua.PosixPath.Components.{
  no_slash, is_part, IsPart, slashed, part-no_slash, is_relative, slashed_more-is_relative,
  relative-starts_with, relative-all,
}

pub ends_in_slash-append :
    (a b : Text) → is_empty b ≡ false → ends_in_slash (a ++ b) ≡ ends_in_slash b
unfolding ends_in_slash
ends_in_slash-append [] b h = refl
ends_in_slash-append (c ∷ []) [] h = absurd (ground arith)
ends_in_slash-append (c ∷ []) (d ∷ b) h = refl
ends_in_slash-append (c ∷ d ∷ a) b h = ends_in_slash-append (d ∷ a) b h

part-ends_in_slash : (p : Text) → no_slash p ≡ true → is_empty p ≡ false → ends_in_slash p ≡ false
unfolding ends_in_slash
part-ends_in_slash [] h k = absurd (ground arith)
part-ends_in_slash (c ∷ []) h k = ground arith
part-ends_in_slash (c ∷ d ∷ p) h k = part-ends_in_slash (d ∷ p) (ground arith) refl

part-is_empty : (p : Text) → IsPart p → is_empty p ≡ false
unfolding is_part
part-is_empty [] h = absurd (ground arith)
part-is_empty (c ∷ p) h = refl

pub slashed-is_empty :
    (p : Text) (ps : List Text) → All IsPart (p ∷ ps) → is_empty (slashed (p ∷ ps)) ≡ false
unfolding join_with is_part
slashed-is_empty [] ps h = absurd (ground arith)
slashed-is_empty (c ∷ p) [] h = refl
slashed-is_empty (c ∷ p) (q ∷ ps) h = refl

pub slashed-ends_in_slash :
    (p : Text) (ps : List Text) → All IsPart (p ∷ ps) → ends_in_slash (slashed (p ∷ ps)) ≡ false
unfolding join_with
slashed-ends_in_slash p [] h = part-ends_in_slash p (part-no_slash p h.0) (part-is_empty p h.0)
slashed-ends_in_slash p (q ∷ ps) h =
    ends_in_slash-append p (b'/' ∷ slashed (q ∷ ps)) refl
    ∙ (ends_in_slash-append (codes "/") (slashed (q ∷ ps)) (slashed-is_empty q ps h.1)
        ∙ slashed-ends_in_slash q ps h.1)

split_last-no_slash : (n : Text) → no_slash n ≡ true → split_last n ≡ ([], n)
unfolding split_last
split_last-no_slash [] h = refl
split_last-no_slash (c ∷ n) h =
    let e : (c == b'/') ≡ false = ground arith in rw (split_last-no_slash n (ground arith), e) refl

split_last-append :
    (s n : Text) → no_slash n ≡ true → split_last (s ++ b'/' ∷ n) ≡ (s ++ b'/' ∷ [], n)
unfolding split_last
split_last-append [] n h = rw (split_last-no_slash n h) refl
split_last-append (c ∷ []) n h = rw (split_last-append [] n h) refl
split_last-append (c ∷ d ∷ s) n h = rw (split_last-append (d ∷ s) n h) refl

strip_slashes-append : (s : Text) → ends_in_slash s ≡ false → strip_slashes (s ++ b'/' ∷ []) ≡ s
unfolding strip_slashes ends_in_slash
strip_slashes-append [] h = absurd (ground arith)
strip_slashes-append (c ∷ []) h = rw h refl
strip_slashes-append (c ∷ d ∷ s) h = rw (strip_slashes-append (d ∷ s) h) (ground arith)

pub slashed-append :
    (f : Text) (fs : List Text) (n : Text) (ns : List Text)
    → slashed ((f ∷ fs) ++ n ∷ ns) ≡ slashed (f ∷ fs) ++ b'/' ∷ slashed (n ∷ ns)
unfolding join_with
slashed-append f [] n ns = refl
slashed-append f (g ∷ fs) n ns =
    ap (λ r. f ++ b'/' ∷ r) (slashed-append g fs n ns)
    ∙ sym (append_assoc f (b'/' ∷ slashed (g ∷ fs)) (b'/' ∷ slashed (n ∷ ns)))

-- The folder of a page.
pub dirname-slashed :
    (fs : List Text) (n : Text)
    → All IsPart fs
    → IsPart n
    → dirname (slashed (fs ++ n ∷ [])) ≡ slashed fs
unfolding dirname join_with
dirname-slashed [] n hf h = rw (split_last-no_slash n (part-no_slash n h)) refl
dirname-slashed (f ∷ fs) n hf h =
    rw
      (
        slashed-append f fs n [],
        split_last-append (slashed (f ∷ fs)) n (part-no_slash n h),
        relative-all (slashed (f ∷ fs) ++ b'/' ∷ []) (slashed_more-is_relative f fs (b'/' ∷ []) hf),
        strip_slashes-append (slashed (f ∷ fs)) (slashed-ends_in_slash f fs hf),
      )
      refl

pub join-slashed :
    (f : Text) (fs : List Text) (b : Text)
    → All IsPart (f ∷ fs)
    → is_relative b ≡ true
    → join (slashed (f ∷ fs)) b ≡ slashed (f ∷ fs) ++ b'/' ∷ b
unfolding join
join-slashed f fs b h k = rw (relative-starts_with b k, slashed-ends_in_slash f fs h) refl

pub join-empty : (b : Text) → is_relative b ≡ true → join [] b ≡ b
unfolding join ends_in_slash
join-empty b k = rw (relative-starts_with b k) refl
