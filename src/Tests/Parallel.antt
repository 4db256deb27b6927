-- ===== src/Tests/Parallel.antt =====
-- The division of an array among threads.
use sysprogramming_examples.Prelude.{◌+◌, ◌-◌, ◌/◌, ◌≡◌, refl, [], ◌∷◌, arith}
use sysprogramming_examples.Prelude.Run.{Run, Returns}
use sysprogramming_examples.Psort.{partition}
use sysprogramming_examples.Psort.Partition.{IsPartition, partition-IsPartition}
use sysprogramming_examples.Psort.Round.{segment}

partition-seven : partition 7 3 ≡ Run.ok (segment 0 2 ∷ segment 2 2 ∷ segment 4 3 ∷ [])
unfolding partition
partition-seven = refl

partition-IsPartition_example :
    Returns (IsPartition 3 0 7 (7 / 3) ((7 + (3 - 1)) / 3)) (partition 7 3)
partition-IsPartition_example = partition-IsPartition 7 3 (omega arith)
