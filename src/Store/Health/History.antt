-- ===== src/Store/Health/History.antt =====
-- A health check's row against the history of its probes: `record_health_observation` of
-- crates/nopager-db/src/lib.rs.
use nopager.Prelude.{ℕ, suc, min, Bool, true, false, ◌≡◌, arith, List, [], ◌∷◌, leb}
use nopager.Store.Schema.{HealthRow, unknown}
use nopager.Store.Health.{observe_row, is_down}

-- A check before its first probe.
abbrev pub unprobed : HealthRow
unprobed = record {
  id = 0;
  project_id = 0;
  consecutive_failures = 0;
  consecutive_successes = 0;
  status = unknown;
}

-- The probes, newest first; `true` is a success.
unfoldable pub observe_rows : HealthRow → List Bool → HealthRow
observe_rows h [] = h
observe_rows h (r ∷ rs) = observe_row r (observe_rows h rs)

abbrev pub failures : List Bool → ℕ
failures [] = 0
failures (false ∷ rs) = suc (failures rs)
failures (true ∷ rs) = 0

abbrev successes : List Bool → ℕ
successes [] = 0
successes (true ∷ rs) = suc (successes rs)
successes (false ∷ rs) = 0

-- The last three probes failed, or one has succeeded since.
abbrev pub down_by_history : List Bool → Bool
down_by_history [] = false
down_by_history (false ∷ rs) = leb 3 (failures (false ∷ rs))
down_by_history (true ∷ rs) = leb 3 (failures rs)

record Tracks (rs : List Bool) (h : HealthRow) : Type 0 where
  same_failures : h.consecutive_failures ≡ min 2147483647 (failures rs)
  same_successes : h.consecutive_successes ≡ min 2147483647 (successes rs)
  same_status : is_down h.status ≡ down_by_history rs

observe_row-Tracks :
    (r : Bool) (rs : List Bool) (h : HealthRow) → Tracks rs h → Tracks (r ∷ rs) (observe_row r h)
unfolding observe_row
observe_row-Tracks true [] h t = ground arith
observe_row-Tracks true (true ∷ rs) h t = ground arith
observe_row-Tracks true (false ∷ rs) h t = ground arith
observe_row-Tracks false rs h t = ground arith

unprobed-Tracks : (rs : List Bool) → Tracks rs (observe_rows unprobed rs)
unfolding observe_rows
unprobed-Tracks [] = ground arith
unprobed-Tracks (r ∷ rs) = observe_row-Tracks r rs (observe_rows unprobed rs) (unprobed-Tracks rs)

-- Whatever probes a check has had, its row says DOWN exactly if the last three probes or more failed,
-- or the last one succeeded and the three before it or more failed.
pub observe_rows-down_by_history :
    (rs : List Bool) → is_down (observe_rows unprobed rs).status ≡ down_by_history rs
observe_rows-down_by_history rs = (unprobed-Tracks rs).same_status
