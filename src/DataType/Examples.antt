-- ===== src/DataType/Examples.antt =====
-- The theorems on types at concrete types.
use parq.Prelude.{◌↔◌}
use parq.DataType.{boolean, int64, float64, merge}
use parq.DataType.Order.{Widens, merge-IsJoin}

merge-IsJoin_example :
    Widens boolean (merge boolean int64)
    × Widens int64 (merge boolean int64)
    × ((Widens boolean float64 × Widens int64 float64) ↔ Widens (merge boolean int64) float64)
merge-IsJoin_example = merge-IsJoin boolean int64 float64
