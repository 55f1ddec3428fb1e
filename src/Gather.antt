-- ===== src/Gather.antt =====
-- pcaio/gather.c: a task that waits for others. The hook runs in a task of the group when that
-- terminates; the last one schedules the waiting task.
pub mod Count
pub mod Start
pub mod Fail
mod Tests
use pcaio.Prelude.{
  ℕ, ◌+◌, ◌-◌, ◌%◌, ◌^◌, Bool, true, false, List, [], ◌∷◌, ◌==◌, if◌then◌else◌, Ptr, update, Status,
  done, failed, length, Tid,
}
use pcaio.World.{World, task_noschedule, enqueue, schedule}
use pcaio.Relax.{self, relax}

-- `gather_taskterminated`; `atomic_fetch_sub` on an `atomic_ushort` wraps.
unfoldable pub taskterminated : Ptr → World → World
taskterminated t w =
    let g = w.gather t in
    let left = (w.gather_count g + (2 ^ 16 - 1)) % 2 ^ 16 in
    let w1 = record w { gather_count = update w.gather_count g left } in
    if left == 0
    then (schedule (w.gather_task g)
        (record w1 { gather_mutex = update w1.gather_mutex g false })).1
    else w1

-- The loop of `pcaio_gatherA` over `tasks`: each task is told its gather and its hook, and is
-- queued; it stops at the first that the queue refuses.
unfoldable pub start : (g : Ptr) → List Ptr → World → Status × World
start g [] w = (done, w)
start g (t ∷ ts) w =
    let (s, w1) =
      enqueue t
        (record w { gather = update w.gather t g; terminated = update w.terminated t true }) in
    let rest = start g ts w1 in elim s [ done ↦ rest | failed ↦ (failed, w1) ]

-- `pcaio_gatherA` in the thread `thread`: `g` is the structure on its stack, `err` what
-- `pthread_mutex_init` returns, and `swap` what `swapcontext` comes to in the call of
-- `pcaio_relaxA`.
unfoldable pub gather :
    (g : Ptr)
    → Tid
    → (err : ℕ) → (swap : World → Status × World) → List Ptr
    → World
    → Status × World
unfolding self
gather g thread err swap ts w =
    let w1 = record w {
      gather_count = update w.gather_count g (length ts % 2 ^ 16);
      gather_task = update w.gather_task g (self thread w);
    } in
    let failed_at = λ (v : World). record v { gather_mutex = update v.gather_mutex g false } in
    if err == 0
    then (let (s, w2) = start g ts (record w1 { gather_mutex = update w1.gather_mutex g true }) in
        elim s [
          | failed ↦ (failed, failed_at w2)
          | done ↦
              (let (s', w3) = relax thread swap task_noschedule w2 in
                elim s' [ failed ↦ (failed, failed_at w3) | done ↦ (done, w3) ])
        ])
    else (failed, w1)
