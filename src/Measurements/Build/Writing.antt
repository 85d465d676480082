-- ===== src/Measurements/Build/Writing.antt =====
-- The files that data/measurements/build.py writes.
use mathlib.Core.List.{Memᴰ, append_assoc, append-nil}
use multiplayer_fabric_manua.Common.{true, List, [], ◌∷◌, ◌++◌, some, ◌≡◌, refl, sym, ap, ◌∙◌}
use multiplayer_fabric_manua.Common.Lists.{All, Distinct}
use multiplayer_fabric_manua.Common.Text.{Text}
use multiplayer_fabric_manua.Measurements.Schema.{Schema, Table, table_name}
use multiplayer_fabric_manua.Measurements.Data.{schemas}
use multiplayer_fabric_manua.Measurements.Duckdb.{
  System, Duckdb, IsDuckdb, ok, parquet_path, is_unquoted,
}
use multiplayer_fabric_manua.Measurements.Build.{
  World, Line, wrote, copied, copy_to, sized, getsize, write_table, write,
}
use multiplayer_fabric_manua.Measurements.Build.Steps.{then_ok}
use multiplayer_fabric_manua.Measurements.Build.Loading.{IsDeclared, Holds, names}

module _ {os : System} (d : Duckdb os) (l : IsDuckdb os d) (out : Text) where
  -- The file of a table holds its rows.
  abbrev pub Exported : os.Disk → Table → Type 0
  Exported disk t = l.contents disk (parquet_path out (table_name t)) ≡ some t.rows

  -- The files of the tables that are not among the names hold what they held.
  abbrev Kept : os.Disk → os.Disk → List Text → Type 0
  Kept disk disk' ts =
      (s : Schema)
      → Memᴰ s schemas
      → ¬ Memᴰ s.name ts
      → l.contents disk' (parquet_path out s.name) ≡ l.contents disk (parquet_path out s.name)

  module _ (plain : is_unquoted out ≡ true) where
    write_table-Holds :
        (t : Table) (w : World d)
        → IsDeclared t
        → l.IsReady w.disk out
        → Holds d l w.db t
        → (disk : os.Disk) × (line : Line) × l.IsReady disk out
          × Exported disk t
          × Kept w.disk disk (table_name t ∷ [])
          × (write_table d out (table_name t) w
              ≡ (ok tt, record w { disk = disk; printed = w.printed ++ line ∷ [] }))
    unfolding write_table
    write_table-Holds t w m ready h =
        let path = parquet_path out (table_name t) in
        let (disk, e, ready', c, same) = l.copy_law out t w.db w.disk m plain ready h in
        let (n, e') = l.size_law out t disk m ready' c in
        let w₁ : World d = record w { disk = disk } in
        (
          disk,
          wrote path n,
          ready',
          c,
          (λ s k fresh. same s k (λ q. fresh (Memᴰ.head q))),
          then_ok d (copy_to d (table_name t) path) _ w w₁ tt (ap (copied d w) e)
              ∙ then_ok d (getsize d path) _ w₁ w₁ n (ap (sized d w₁) e'),
        )

    -- Writing goes on to the end, with one file for each table.
    pub write-Holds :
        (ts : List Table) (w : World d)
        → Distinct (names ts)
        → All IsDeclared ts
        → l.IsReady w.disk out
        → All (Holds d l w.db) ts
        → (disk : os.Disk) × (lines : List Line) × All (Exported disk) ts
          × Kept w.disk disk (names ts)
          × (write d out (names ts) w
              ≡ (ok tt, record w { disk = disk; printed = w.printed ++ lines }))
    unfolding write
    write-Holds [] w dist ms ready hs = (
      w.disk,
      [],
      tt,
      (λ s m fresh. refl),
      ap (λ p. (ok tt, record w { printed = p })) (sym (append-nil w.printed)),
    )
    write-Holds (t ∷ ts) w (fresh, dist) (m, ms) ready (h, hs) =
        let (disk₁, line, ready₁, c, same₁, e) = write_table-Holds t w m ready h in
        let w₁ : World d = record w { disk = disk₁; printed = w.printed ++ line ∷ [] } in
        let (disk₂, lines, cs, same₂, e') = write-Holds ts w₁ dist ms ready₁ hs in
        (
          disk₂,
          line ∷ lines,
          (same₂ t.schema m fresh ∙ c, cs),
          (λ s k n. same₂ s k (λ x. n (Memᴰ.tail x)) ∙ same₁ s k (λ x. n (only s x))),
          then_ok d (write_table d out (table_name t)) _ w w₁ tt e
              ∙ e'
              ∙ ap (λ p. (ok tt, record w { disk = disk₂; printed = p }))
                  (append_assoc w.printed (line ∷ []) lines),
        )
      where
        only :
            (s : Schema) → Memᴰ s.name (table_name t ∷ []) → Memᴰ s.name (table_name t ∷ names ts)
        only s (Memᴰ.head q) = Memᴰ.head q
        only s (Memᴰ.tail x) = elim x [ ]
