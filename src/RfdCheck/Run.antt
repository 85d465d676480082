-- ===== src/RfdCheck/Run.antt =====
-- A run of scripts/check-rfd-numbers.py: the arguments of its calls of `print`, in order, and how it
-- ends.
use multiplayer_fabric_manua.Common.{List, [], ◌∷◌}
use multiplayer_fabric_manua.Common.Text.{Text}
use multiplayer_fabric_manua.RfdCheck.FileTree.{Outcome, ok, raised, ◌>>=◌}

pub record Run {ℓ} (A : Type ℓ) : Type ℓ where
  pub lines : List Text
  pub result : Outcome A

-- `print(line)` before a run.
abbrev pub say {ℓ} : {A : Type ℓ} → Text → Run A → Run A
say line r = record { lines = line ∷ r.lines; result = r.result }

abbrev pub ended {ℓ κ} : {A : Type ℓ} {B : Type κ} → (A → B) → Run A → Run B
ended f r = record { lines = r.lines; result = r.result >>= λ a. ok (f a) }

-- A run that goes on with what a call gave, if it did not raise.
abbrev pub after {ℓ κ} : {A : Type ℓ} {B : Type κ} → Outcome A → (A → Run B) → Run B
after (ok a) f = f a
after (raised e) f = record { lines = []; result = raised e }
