-- ===== src/Measurements/Build/Steps.antt =====
-- One step of the script after another.
use multiplayer_fabric_manua.Common.{◌≡◌, ap}
use multiplayer_fabric_manua.Measurements.Duckdb.{System, Duckdb, Result, ok, stop}
use multiplayer_fabric_manua.Measurements.Build.{
  after, changed, answered, World, Action, Stop, sql, ◌>>=◌, execute, query,
}

module _ {os : System} (d : Duckdb os) where
  -- The rest of the script goes on from where a step has ended.
  pub then_ok :
      {A B : Type 0} (m : Action d A) (f : A → Action d B) (w w' : World d) (a : A)
      → m w ≡ (ok a, w')
      → (◌>>=◌ d m f) w ≡ f a w'
  then_ok m f w w' a e = ap (λ p. after d p f) e

  -- A step that stops the script is the last one.
  pub then_stop :
      {A B : Type 0} (m : Action d A) (f : A → Action d B) (w w' : World d) (e : Stop d)
      → m w ≡ (stop e, w')
      → (◌>>=◌ d m f) w ≡ (stop e, w')
  then_stop m f w w' e q = ap (λ p. after d p f) q

  pub execute_ok :
      (f : d.State → Result d.Error d.State) (w : World d) (db : d.State)
      → f w.db ≡ ok db
      → execute d f w ≡ (ok tt, record w { db = db })
  execute_ok f w db e = ap (changed d w) e

  pub execute_stop :
      (f : d.State → Result d.Error d.State) (w : World d) (x : d.Error)
      → f w.db ≡ stop x
      → execute d f w ≡ (stop (sql x), w)
  execute_stop f w x e = ap (changed d w) e

  pub query_ok :
      {A : Type 0} (f : d.State → Result d.Error A) (w : World d) (a : A)
      → f w.db ≡ ok a
      → query d f w ≡ (ok a, w)
  query_ok f w a e = ap (answered d w) e
