-- ===== src/Lib.antt =====
-- The verification library of pcaio, cooperative tasks over a pool of worker threads (C).
--
-- A task is a function with a stack of its own. It runs in one of the worker threads until it
-- gives way (`pcaio_relaxA`), ends, or waits for a group of tasks or for a descriptor. All tasks
-- that can run stand in one queue. A worker takes the oldest one, switches to it, and settles it
-- when it comes back: it is freed, kept out of the queue, or queued again. The main thread runs
-- the installed modules in turn while tasks are left. The modules for `select` and `epoll` keep
-- the events that tasks wait for in a ring and in a list, and queue a task when something comes
-- for its descriptor.
--
-- Files and sources. `QueueT`: include/pcaio/queueT.h and queueT.c, the queue of tasks
-- (`taskqueue_push`, `taskqueue_pushall`, `taskqueue_pop`). `ListT`: include/pcaio/listT.h and
-- listT.c, the list of all tasks. `RingT`: include/pcaio/ringT.h and ringT.c, the ring of
-- events. `Threadpool`: pcaio/threadpool.c. `Threadlocal`: pcaio/threadlocalT.c. `World`: the
-- state that all threads share (pcaio/task.h, pcaio/gather.h) and `pcaio_schedule`. `Relax`:
-- `pcaio_self` and `pcaio_relaxA` of pcaio/pcaio.c. `Gather`: pcaio/gather.c. `Task`:
-- pcaio/task.c (`task_new`, `task_free`, `_taskmain`). `Worker`: pcaio/worker.c. `Api`: the rest
-- of pcaio/pcaio.c. `Master`: pcaio/master.c, with `master_init` and `master_deinit` in
-- `Master.Setup`, and `pcaio_module_install`. `Modio`: pcaio/modio.c. `IoEvent`: `struct
-- pcaio_ioevent` of include/pcaio/modio.h. `Modselect`: pcaio/modselect.c. `Modepoll`:
-- pcaio/modepoll.c. `Timer`: pcaio/timer.c. `pcaio` itself and its signal handler stand in
-- `Api.Run`. `Modepoll.Round` and `Modselect.Round` put a module behind the main loop, as the
-- functions that it is told to call. `Master.Work` and `Api.Complete` put the turns of a worker
-- between the rounds of the main loop, for runs of the whole library with one worker;
-- `Worker.Plan` and `Worker.Needs` count the turns that the tasks need. `Examples`:
-- examples/await.c, examples/asleep.c, examples/epoll_echo.c (with the task of
-- examples/select_echo.c) and examples/epoll_pipe.c (with the tasks of examples/select_pipe.c);
-- `Examples.Modules` is how the programs with epoll install their modules. `Prelude` holds what
-- the parts share, and `Samples` the small states on which the `Tests` modules run.
--
-- Memory. A pointer is a natural number and NULL is 0. A field of a structure is a function from
-- pointers, and a store through a pointer is an update of that function, so aliasing is what it
-- is in C. What is freed is recorded in order. Counters are reduced modulo the size of their
-- type: `size_t` has 64 bits, `int` 32, `unsigned short` 16.
--
-- The system. What a call of the system or of the C library comes to (`malloc`,
-- `pthread_create`, `pthread_setspecific`, `select`, `read` and so on) is an argument of the
-- definition that makes the call. So is what a task does between the switch to it and its
-- return, and what other threads do while a thread does not hold the queue. Theorems about
-- success say which answers they need; the others hold for all answers.
--
-- Threads. Each call of a queue, list, ring or pool is one step. What other threads do comes
-- between the steps: in `Worker` as an argument of each turn, in `Master` as an argument of each
-- round, in `pop` as the queue that a thread finds when it wakes. `Worker.Crew` has several
-- workers over one queue as a relation of steps, in any order; `Worker.Team` has them with the
-- tasks, which give way by `pcaio_relaxA` and end in `_taskmain`, both of which read what the
-- thread has stored under its two keys (`Worker.Team.Landing`): its steps are those in which
-- `swapcontext` succeeds and `pthread_setspecific` stores the task that a worker takes; and
-- `Worker.Team.Turn` relates their steps to a turn of the loop; in `Worker.Team.Gatherer` one of
-- the tasks waits for a group of the others, from where it has left its context; `Master.Team`
-- and `Api.Crowd` put the main loop beside them, which looks at any time. Two calls that overlap
-- inside one step, and the reads that a guard makes before it takes a mutex, are not modelled.
-- Machine contexts and stacks are opaque.
--
-- Loops. A loop over a counter is a recursion on the number of rounds that are left. The loops
-- over modules have `modules_max` = 8 rounds (CONFIG_PCAIO_MODULES_MAX of pcaio/CMakeLists.txt),
-- as many as can be installed; the loop that frees the tasks has one round for each task and one
-- that ends it. Loops that wait for the system (`pop` with QWAIT, the main loop, `readA`)
-- recurse on the sequence of what they meet, and their result says when that sequence ends
-- before they do.
--
-- Not modelled: the logging, the build files, the tests and the rest of the examples (minimal.c
-- and the mains of the two programs with select).
pub mod Prelude
pub mod QueueT
pub mod ListT
pub mod RingT
pub mod Threadpool
pub mod Threadlocal
pub mod World
pub mod Relax
pub mod Gather
pub mod Task
pub mod Worker
pub mod Api
pub mod Master
pub mod Modio
pub mod IoEvent
pub mod Modselect
pub mod Modepoll
pub mod Timer
pub mod Samples
pub mod Examples
