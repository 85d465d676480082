-- ===== src/Measurements/Build/Verifying.antt =====
-- The verification of data/measurements/build.py on a database that holds the tables.
use mathlib.Core.Path.{subst}
use mathlib.Core.List.{append_assoc, append-nil}
use multiplayer_fabric_manua.Common.{
  ℕ, zero, suc, List, [], ◌∷◌, ◌++◌, Option, none, some, ◌≡◌, ◌⊎◌, refl, arith, sym, ap, ◌∙◌, map,
  inl, inr,
}
use multiplayer_fabric_manua.Common.Tests.{Bool-cases, if◌then◌else◌}
use multiplayer_fabric_manua.Common.Lists.{All, length}
use multiplayer_fabric_manua.Common.Text.{Text, codes, text_eq}
use multiplayer_fabric_manua.Measurements.Schema.{Table, table_name, run_ids, orphan_count}
use multiplayer_fabric_manua.Measurements.Duckdb.{System, Duckdb, IsDuckdb, ok, stop}
use multiplayer_fabric_manua.Measurements.Build.{
  World, Line, counted, orphaned, query, orphans_of, exit_if, verify_table, verify,
}
use multiplayer_fabric_manua.Measurements.Build.Steps.{then_ok, then_stop, query_ok}
use multiplayer_fabric_manua.Measurements.Build.Loading.{IsDeclared, Holds, names}

-- The rows of a table that refer to no run: the run table is not looked at.
abbrev pub orphans : Table → Table → ℕ
orphans runs t =
    if text_eq (table_name t) (codes "run") then 0 else orphan_count (run_ids runs) (run_ids t)

-- The line that is printed for a table.
abbrev pub line_of : Table → Table → Line
line_of runs t = counted (table_name t) (length t.rows) (orphans runs t)

-- The first table with a row that refers to no run.
abbrev pub unless_none : ℕ → Text → Option Text → Option Text
unless_none zero t later = later
unless_none (suc n) t later = some t

abbrev pub first_orphaned : Table → List Table → Option Text
first_orphaned runs [] = none
first_orphaned runs (t ∷ ts) = unless_none (orphans runs t) (table_name t) (first_orphaned runs ts)

ℕ-cases : (n : ℕ) → (n ≡ zero) ⊎ ((m : ℕ) × (n ≡ suc m))
ℕ-cases zero = inl refl
ℕ-cases (suc n) = inr (n, refl)

module _ {os : System} (d : Duckdb os) (l : IsDuckdb os d) (runs : Table)
    (is_run : table_name runs ≡ codes "run") (run_m : IsDeclared runs) where
  orphans_of-Holds :
      (t : Table) (w : World d)
      → IsDeclared t
      → Holds d l w.db runs
      → Holds d l w.db t
      → orphans_of d (table_name t) w ≡ (ok (orphans runs t), w)
  orphans_of-Holds t w m r h = elim (Bool-cases (text_eq (table_name t) (codes "run"))) [
    | inl e ↦ rw e refl
    | inr e ↦ rw e (
        query_ok d (d.count_orphans (table_name t)) w _
          (l.orphans_law runs t w.db run_m m is_run r h))
  ]

  -- A round prints its line, and goes on unless there is an orphan.
  verify_table-Holds :
      (t : Table) (w : World d)
      → IsDeclared t
      → Holds d l w.db runs
      → Holds d l w.db t
      → verify_table d (table_name t) w
        ≡ exit_if d
            (orphans runs t)
            (table_name t)
            (record w { printed = w.printed ++ line_of runs t ∷ [] })
  unfolding verify_table
  verify_table-Holds t w m r h =
      then_ok d (query d (d.count_rows (table_name t))) _ w w (length t.rows)
        (query_ok d (d.count_rows (table_name t)) w (length t.rows) (l.count_law t w.db m h))
      ∙ then_ok d (orphans_of d (table_name t)) _ w w (orphans runs t) (orphans_of-Holds t w m r h)

  pub verify-Holds :
      (ts : List Table) (w : World d)
      → Holds d l w.db runs
      → All IsDeclared ts
      → All (Holds d l w.db) ts
      → first_orphaned runs ts ≡ none
      → verify d (names ts) w ≡ (ok tt, record w { printed = w.printed ++ map (line_of runs) ts })
  unfolding verify
  verify-Holds [] w r ms hs e =
      ap (λ p. (ok tt, record w { printed = p })) (sym (append-nil w.printed))
  verify-Holds (t ∷ ts) w r (m, ms) (h, hs) e = elim (ℕ-cases (orphans runs t)) [
    | inr (n, q) ↦
        let found : some (table_name t) ≡ none =
          subst (λ k. unless_none k (table_name t) (first_orphaned runs ts) ≡ none) q e in
        absurd (ground arith)
    | inl q ↦
        let w₁ : World d = record w { printed = w.printed ++ line_of runs t ∷ [] } in
        then_ok d (verify_table d (table_name t)) _ w w₁ tt
          (verify_table-Holds t w m r h ∙ rw q refl)
        ∙ verify-Holds ts w₁ r ms hs
            (subst (λ n. unless_none n (table_name t) (first_orphaned runs ts) ≡ none) q e)
        ∙ ap (λ p. (ok tt, record w { printed = p }))
            (append_assoc w.printed (line_of runs t ∷ []) (map (line_of runs) ts))
  ]

  -- The verification stops at the first table with an orphan.
  pub verify-orphaned :
      (ts : List Table) (w : World d) (u : Text)
      → Holds d l w.db runs
      → All IsDeclared ts
      → All (Holds d l w.db) ts
      → first_orphaned runs ts ≡ some u
      → (lines : List Line) × (verify d (names ts) w
          ≡ (stop (orphaned u), record w { printed = w.printed ++ lines }))
  unfolding verify
  verify-orphaned [] w u r ms hs e = absurd (ground arith)
  verify-orphaned (t ∷ ts) w u r (m, ms) (h, hs) e = elim (ℕ-cases (orphans runs t)) [
    | inr (n, q) ↦
        let found : some (table_name t) ≡ some u =
          subst (λ k. unless_none k (table_name t) (first_orphaned runs ts) ≡ some u) q e in
        let same : table_name t ≡ u = ground arith in
        (
          line_of runs t ∷ [],
          then_stop d (verify_table d (table_name t)) _ w _ (orphaned u)
              (verify_table-Holds t w m r h ∙ rw (q, same) refl),
        )
    | inl q ↦
        let w₁ : World d = record w { printed = w.printed ++ line_of runs t ∷ [] } in
        let (lines, rest) =
          verify-orphaned ts w₁ u r ms hs
            (subst (λ n. unless_none n (table_name t) (first_orphaned runs ts) ≡ some u) q e) in
        (
          line_of runs t ∷ lines,
          then_ok d (verify_table d (table_name t)) _ w w₁ tt
                (verify_table-Holds t w m r h ∙ rw q refl)
              ∙ rest
              ∙ ap (λ p. (stop (orphaned u), record w { printed = p }))
                  (append_assoc w.printed (line_of runs t ∷ []) lines),
        )
  ]
