-- ===== src/Master/Samples.antt =====
-- Small states of the main thread, with modules and answers of the system, for the tests.
use pcaio.Prelude.{refl, false, true, some, [], done}
use pcaio.Threadpool
use pcaio.Threadpool.{Threadpool, thread}
use pcaio.Master.{State, Callbacks, pms_again}
use pcaio.Master.Setup.{Setup}
use pcaio.Master.Reset.{Harmless, Granted}
use pcaio.Samples.{queue0, list2, world_of}
use pcaio.Threadpool.Promise.{Grants}

abbrev pub no_pool : Threadpool
no_pool = record {
  count = 0;
  threads = λ i. 0;
  mutex = false;
  cancelled = [];
  joined = [];
  errno = 0;
  ready = false;
}

-- The library does not run, and the tasks 5 and 7 are made.
abbrev pub two_made : State (Unit {0})
two_made = record {
  workers = 0;
  cancel = true;
  world = world_of queue0 list2;
  pool = no_pool;
  modulescount = 1;
  modules = λ i. 30;
  module_flags = λ m. 0;
  memory = tt;
}

-- A module that always has more to do, and one to start and to stop.
abbrev pub busy : Callbacks (Unit {0})
busy = record {
  has_init = λ m. true;
  init = λ m s. (done, s);
  has_dtor = λ m. true;
  dtor = λ m s. (done, s);
  has_tick = λ m. true;
  tick = λ m timeout s. (pms_again, s);
  sleep = λ timeout s. s;
}

pub busy-Harmless : Harmless busy
busy-Harmless = record { inits = λ m s. (tt, refl); dtors = λ m s. (tt, refl) }

-- The system grants every thread.
abbrev pub willing : Threadpool.System
willing = record { create = λ i. thread i; cancel = λ i. 0; join = λ i. 0 }

abbrev pub grants : Setup
grants = record { threads = some (λ i. 0); mutex = 0; task_key = 0; context_key = 0 }

pub grants-Granted : Granted grants (λ i. 0)
grants-Granted = record { array = refl; mutex = refl; task_key = refl; context_key = refl }

pub willing-Grants : Grants willing
willing-Grants = record { creates = λ i. (i, refl); cancels = λ i. refl; joins = λ i. refl }
