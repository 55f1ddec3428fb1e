-- ===== src/Threadpool/Tests.antt =====
-- Runs of `threadpool_scale` on small pools.
use pcaio.Prelude.{true, false, ◌==◌, if◌then◌else◌, [], arith}
use pcaio.Threadpool.{Threadpool, System, thread, scale}
use pcaio.Threadpool.Promise.{Scaled, scale-Scaled}

-- Three threads run.
abbrev three : Threadpool
three = record {
  count = 3;
  threads = λ i. i;
  mutex = false;
  cancelled = [];
  joined = [];
  errno = 0;
  ready = true;
}

-- The thread at the first place does not let itself be joined.
abbrev stubborn : System
stubborn = record { create = λ i. thread i; cancel = λ i. 0; join = λ i. if i == 0 then 3 else 0 }

scale-Scaled_example : Scaled 0 three (scale stubborn 1 0 three)
scale-Scaled_example = scale-Scaled stubborn 1 0 three (omega arith) (omega arith) (omega arith)
