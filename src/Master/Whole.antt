-- ===== src/Master/Whole.antt =====
-- `master` of pcaio/master.c from its start to its end.
use pcaio.Prelude.{Tid, null, ℕ, ◌+◌, ◌≡◌, refl, true, some, List, [], arith, done}
use pcaio.ListT.Refine.{IsList}
use pcaio.Threadlocal
use pcaio.Threadpool
use pcaio.Master.{State, Callbacks, main_loop, ended, free_all, master, address}
use pcaio.Master.Teardown.{free_all-frees}
use pcaio.Task.Life.{release}

-- The state in which the main loop starts: the pool has grown, and the thread has no context.
unfoldable pub grown : {M : Type 0} → Tid → (err : ℕ) → Threadpool.System → State M → State M
unfolding Threadlocal.set
grown thread err grow s = record s {
  pool = (Threadpool.scale grow address s.workers s.pool).1;
  world = record s.world { context_key = (Threadlocal.set err thread null s.world.context_key).1 };
}

master-eq :
    {M : Type 0} (thread : Tid) (err : ℕ) (cb : Callbacks M) (grow shrink : Threadpool.System)
    (rounds : List (State M → State M)) (s s1 : State M)
    → (Threadpool.scale grow address s.workers s.pool).0 ≡ done
    → main_loop cb rounds true (grown thread err grow s) ≡ ended s1
    → let (ret, pool1) = Threadpool.scale shrink address 0 s1.pool in
      master thread err cb grow shrink rounds s
      ≡ some (ret, record s1 { pool = pool1; world = free_all (s1.world.tasks.count + 1) s1.world })
unfolding master grown
master-eq thread err cb grow shrink rounds s s1 e e' = rw (master, e, e') refl

-- If the pool grows and the main loop ends with a well-formed list of tasks, `master` reports what
-- the shrinking of the pool to 0 reports, and whatever that is, every task that was left is freed
-- once with its stack and none is left.
pub master-frees :
    {M : Type 0} (thread : Tid) (err : ℕ) (cb : Callbacks M) (grow shrink : Threadpool.System)
    (rounds : List (State M → State M)) (s s1 : State M) {zs : List ℕ}
    → (Threadpool.scale grow address s.workers s.pool).0 ≡ done
    → main_loop cb rounds true (grown thread err grow s) ≡ ended s1
    → IsList s1.world.tasks zs
    → (final : State M) × (master thread err cb grow shrink rounds s
        ≡ some ((Threadpool.scale shrink address 0 s1.pool).0, final))
      × IsList final.world.tasks []
      × (final.world.freed ≡ release s1.world.stack zs s1.world.freed)
master-frees thread err cb grow shrink rounds s s1 {zs} e e' is =
    let (empty, all) =
      free_all-frees s1.world zs (s1.world.tasks.count + 1) is (omega (arith, is.counted)) in
    (
      record s1 {
        pool = (Threadpool.scale shrink address 0 s1.pool).1;
        world = free_all (s1.world.tasks.count + 1) s1.world;
      },
      master-eq thread err cb grow shrink rounds s s1 e e',
      empty,
      all,
    )
