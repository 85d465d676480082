-- ===== src/Measurements/Build/Runs.antt =====
-- Each table that the script declares has the run in its primary key, so no row lacks one.
use mathlib.Core.List.{Memᴰ}
use multiplayer_fabric_manua.Common.{true, false, List, [], ◌∷◌, ◌≡◌, refl, sym, ap, arith, map}
use multiplayer_fabric_manua.Common.Lists.{All, All-mem, any, any_of_mem}
use multiplayer_fabric_manua.Common.Text.{Text, codes, text_eq, mem, mem_iff}
use multiplayer_fabric_manua.PosixPath.{is_empty}
use multiplayer_fabric_manua.Measurements.Schema.{
  Value, null, Row, Schema, Table, value_eq, field, key_of, run_id, has_null, keys_hold, has_keys,
}
use multiplayer_fabric_manua.Measurements.Data.{schemas}
use multiplayer_fabric_manua.Measurements.Data.Runs.{run_schema, run_software_schema}
use multiplayer_fabric_manua.Measurements.Data.Latency.{latency_schema}
use multiplayer_fabric_manua.Measurements.Data.Throughput.{throughput_schema, size_schema}
use multiplayer_fabric_manua.Measurements.Data.Capability.{capability_schema}
use multiplayer_fabric_manua.Measurements.Build.Loading.{IsDeclared, IsAccepted}
use multiplayer_fabric_manua.Measurements.Build.References.{value_eq_iff, NotNull, HasRuns}

schemas-keyed : All (λ s. mem (codes "run_id") s.key ≡ true) schemas
unfolding schemas run_schema run_software_schema latency_schema throughput_schema size_schema
    capability_schema text_eq
schemas-keyed = (refl, (refl, (refl, (refl, (refl, (refl, tt))))))

mem_of_map : (f : Text → Value) (c : Text) (cs : List Text) → Memᴰ c cs → Memᴰ (f c) (map f cs)
mem_of_map f c [] m = elim m [ ]
mem_of_map f c (x ∷ cs) (Memᴰ.head e) = Memᴰ.head (ap f e)
mem_of_map f c (x ∷ cs) (Memᴰ.tail m) = Memᴰ.tail (mem_of_map f c cs m)

-- No part of a key is null, its run least of all.
run_id-NotNull :
    (s : Schema) (r : Row)
    → Memᴰ (codes "run_id") s.key
    → has_null (key_of s r) ≡ false
    → NotNull (run_id s r)
unfolding has_null key_of run_id
run_id-NotNull s r m h e =
    let part = mem_of_map (λ c. field s.columns c r) (codes "run_id") s.key m in
    let found : any (value_eq null) (map (λ c. field s.columns c r) s.key) ≡ true =
      any_of_mem (value_eq null) part
        ((value_eq_iff null (field s.columns (codes "run_id") r)).1 (sym e)) in
    cc

rows-NotNull :
    (s : Schema) (rows : List Row)
    → Memᴰ (codes "run_id") s.key
    → keys_hold s rows ≡ true
    → All NotNull (map (run_id s) rows)
unfolding keys_hold
rows-NotNull s [] m h = tt
rows-NotNull s (r ∷ rows) m h =
    let e : has_null (key_of s r) ≡ false = ground arith in
    (run_id-NotNull s r m e, rows-NotNull s rows m (ground arith))

mem-some : (c : Text) (cs : List Text) → Memᴰ c cs → is_empty cs ≡ false
mem-some c [] m = elim m [ ]
mem-some c (x ∷ cs) m = refl

keyed-keys_hold :
    (s : Schema) (rows : List Row)
    → Memᴰ (codes "run_id") s.key
    → has_keys s rows ≡ true
    → keys_hold s rows ≡ true
unfolding has_keys
keyed-keys_hold s rows m h = rw (mem-some (codes "run_id") s.key m) at h

pub accepted-HasRuns : (t : Table) → IsDeclared t → IsAccepted t → HasRuns t
accepted-HasRuns t m (some_row, typed, keyed) =
    let key =
      (mem_iff (codes "run_id") t.schema.key).0
        (All-mem (λ (s : Schema). mem (codes "run_id") s.key ≡ true) schemas-keyed m) in
    rows-NotNull t.schema t.rows key (keyed-keys_hold t.schema t.rows key keyed)
