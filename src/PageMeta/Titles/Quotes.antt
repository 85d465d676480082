-- ===== src/PageMeta/Titles/Quotes.antt =====
-- The quotes around a title, which `_parse_title` of scripts/decision-meta.py takes off.
use mathlib.Core.List.{reverse-append, reverse-reverse}
use multiplayer_fabric_manua.Common.{ℕ, true, [], ◌∷◌, ◌++◌, ◌≡◌, ◌||◌, refl, arith}
use multiplayer_fabric_manua.Common.Tests.{◌==◌}
use multiplayer_fabric_manua.Common.Text.{Text}
use multiplayer_fabric_manua.PageMeta.Titles.{unquote}

-- A title between two quotes of one kind loses just these two, even when it holds quotes itself.
pub unquote-quoted :
    (q : ℕ) (title : Text)
    → (q == b'"' || q == b'\'') ≡ true
    → unquote (q ∷ title ++ q ∷ []) ≡ title
unfolding unquote
unquote-quoted q title h =
    let same : (q == q) ≡ true = ground arith in
    rw (h, reverse-append title (q ∷ []), same, reverse-reverse title) refl
