-- ===== src/Adaptive/Tests.antt =====
-- Counters of a context and the tables of src/algo/netc_adaptive.c on small inputs.
use netc.Prelude.{ℕ, ◌≡◌, refl, arith, [], ◌∷◌}
use netc.Prelude.{some}
use netc.Context.{zero_table, fresh_adapt}
use netc.Tans.Table.{Table}
use netc.Tans.Buckets.{ctx_bucket, near_bucket}
use netc.Tans.Params.{params_12}
use netc.Tans.RoundTrip.{IsTable, IsCodable}
use netc.Adaptive.{Adapt, accumulate, tables_rebuild}
use netc.Adaptive.Rebuilt.{tables_rebuild-IsTable}

abbrev no_tables : ℕ → Table
no_tables b = zero_table

-- Every byte value has been seen seven times in every bucket.
abbrev traffic : Adapt
traffic = record { freq = λ b s. 7; total = λ b. 1792; tables = no_tables; pkt_count = 0 }

counted : (accumulate (fresh_adapt no_tables) 0 (5 ∷ 5 ∷ 6 ∷ [])).freq 0 5 ≡ 2
unfolding accumulate ctx_bucket near_bucket
counted = refl

tables_rebuild-IsTable_example :
    let t = (tables_rebuild (some no_tables) traffic).tables 3 in
    IsTable params_12 t × IsCodable t 65
tables_rebuild-IsTable_example =
    tables_rebuild-IsTable no_tables traffic 3 65 (omega arith) (omega arith)
      (record { freqs = λ s. omega arith; counts = λ s. omega arith; total = omega arith })
