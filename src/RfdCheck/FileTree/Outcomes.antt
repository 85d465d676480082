-- ===== src/RfdCheck/FileTree/Outcomes.antt =====
-- Case splits on an outcome, and steps that find nothing.
use multiplayer_fabric_manua.Common.{List, [], ◌++◌, ◌≡◌, refl, arith, ◌↔◌, ◌⊎◌, inl, inr, ap}
use multiplayer_fabric_manua.Common.Lists.{append-eq-nil}
use multiplayer_fabric_manua.RfdCheck.FileTree.{Failure, Outcome, ok, raised, ◌>>=◌}

pub Outcome-cases {ℓ} :
    {A : Type ℓ} (r : Outcome A) → ((a : A) × (r ≡ ok a)) ⊎ ((e : Failure) × (r ≡ raised e))
Outcome-cases (ok a) = inl (a, refl)
Outcome-cases (raised e) = inr (e, refl)

pub ok-pair {ℓ} :
    {A B : Type ℓ} {a a' : A} {b b' : B}
    → ◌≡◌ {A = Outcome (A × B)} (ok (a, b)) (ok (a', b'))
    → (a ≡ a') × (b ≡ b')
ok-pair h = ground arith

pub ok-injective {ℓ} : {A : Type ℓ} {a b : A} → ok a ≡ ok b → a ≡ b
ok-injective h = cc

-- Two steps, of which neither raises or finds a problem.
pub both-ok-nil {ℓ} :
    {A : Type ℓ} {P Q : Type ℓ} (x y : Outcome (List A))
    → (x ≡ ok []) ↔ P
    → (y ≡ ok []) ↔ Q
    → ((do a ← x; b ← y; ok (a ++ b)) ≡ ok []) ↔ (P × Q)
both-ok-nil (raised e) y p q = (λ h. cc, λ h. cc (p.1 h.0))
both-ok-nil (ok a) (raised e) p q = (λ h. cc, λ h. cc (q.1 h.1))
both-ok-nil (ok a) (ok b) p q = (
  λ h. let (l, r) = (append-eq-nil a b).0 (ok-injective h) in (p.0 (ap ok l), q.0 (ap ok r)),
  λ h. ap ok ((append-eq-nil a b).1 (ok-injective (p.1 h.0), ok-injective (q.1 h.1))),
)
