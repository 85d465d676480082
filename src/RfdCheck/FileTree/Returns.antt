-- ===== src/RfdCheck/FileTree/Returns.antt =====
-- Outcomes that are no exception.
use mathlib.Core.Path.{subst}
use multiplayer_fabric_manua.Common.{◌≡◌, refl, ◌↔◌, sym}
use multiplayer_fabric_manua.RfdCheck.FileTree.{Outcome, ok, raised, ◌>>=◌}

abbrev pub Returns : {A : Type 0} → Outcome A → Type 0
Returns {A} r = (a : A) × (r ≡ ok a)

-- A step and what comes after it.
pub bind-Returns :
    {A B : Type 0} (x : Outcome A) (f : A → Outcome B)
    → Returns (x >>= f) ↔ ((a : A) × (x ≡ ok a) × Returns (f a))
bind-Returns (ok a) f = (
  λ r. (a, refl, r),
  λ (b, e, r). let same : a ≡ b = cc in subst (λ y. Returns (f y)) (sym same) r,
)
bind-Returns (raised x) f = (λ (b, e). cc, λ (a, e, r). cc)

-- Two steps, of which the second raises or not whatever the first one gives.
pub both-Returns :
    {A B : Type 0} {P Q : Type 0} (x : Outcome A) (f : A → Outcome B)
    → Returns x ↔ P
    → ((a : A) → Returns (f a) ↔ Q)
    → Returns (x >>= f) ↔ (P × Q)
both-Returns x f p q = (
  λ r. let (a, e, r') = (bind-Returns x f).0 r in (p.0 (a, e), (q a).0 r'),
  λ (h, k). let (a, e) = p.1 h in (bind-Returns x f).1 (a, e, (q a).1 k),
)

-- A step with a result that is only put together at the end.
pub last-Returns :
    {A B : Type 0} (x : Outcome A) (g : A → B) → Returns (x >>= λ a. ok (g a)) ↔ Returns x
last-Returns x g = (
  λ r. let (a, e, r') = (bind-Returns x (λ a. ok (g a))).0 r in (a, e),
  λ (a, e). (bind-Returns x (λ a. ok (g a))).1 (a, e, (g a, refl)),
)

pub compose_iff : {P Q R : Type 0} → P ↔ Q → Q ↔ R → P ↔ R
compose_iff (f, g) (f', g') = (λ p. f' (f p), λ r. g (g' r))
