-- ===== src/Executor/Examples.antt =====
-- Groups of native/runtime/task_executor.cpp.
use neri.Prelude.{◌≡◌, length, arith, ◌/◌}
use neri.Executor.Partition.{Tiles, Balanced, ranges, chunk_count, ranges_cover}

ranges_cover_example :
    Tiles 2 0 11 (ranges 11 1 2)
    × (length (ranges 11 1 2) ≡ chunk_count 11 1)
    × Balanced (11 / chunk_count 11 1) (ranges 11 1 2)
ranges_cover_example = ranges_cover 11 1 2 (omega arith)
