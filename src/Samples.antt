-- ===== src/Samples.antt =====
-- Small states that the tests of the modules run on: queues and lists of the elements 5 and 7, and
-- a world around them.
use pcaio.Prelude.{refl, true, false, [], ◌∷◌, arith, Ptr, null}
use pcaio.QueueT
use pcaio.QueueT.{Queue}
use pcaio.QueueT.Fifo.{IsQueue, init-IsQueue, push-outside}
use pcaio.ListT
use pcaio.ListT.{DList}
use pcaio.ListT.Refine.{IsList, append-outside}
use pcaio.Threadlocal.{Key}
use pcaio.World.{World}

abbrev pub no_links : Ptr → Ptr
no_links p = null

-- Queues of nothing, of 5, and of 5 and 7.
abbrev pub queue0 : Queue
queue0 = QueueT.init no_links

pub queue0-IsQueue : IsQueue queue0 []
queue0-IsQueue = init-IsQueue no_links (λ a. refl)

abbrev pub queue1 : Queue
queue1 = (QueueT.push 5 queue0).1

pub queue1-IsQueue : IsQueue queue1 (5 ∷ [])
queue1-IsQueue = (push-outside 5 queue0-IsQueue (omega arith) refl (omega arith)).1

abbrev pub queue2 : Queue
queue2 = (QueueT.push 7 queue1).1

pub queue2-IsQueue : IsQueue queue2 (5 ∷ 7 ∷ [])
queue2-IsQueue = (push-outside 7 queue1-IsQueue (omega arith) refl (omega arith)).1

-- Lists of the same elements.
abbrev pub list0 : DList
list0 = record {
  head = null;
  tail = null;
  count = 0;
  mutex = false;
  next = no_links;
  prev = no_links;
}

pub list0-IsList : IsList list0 []
list0-IsList = record {
  chain = refl;
  tail_last = refl;
  counted = refl;
  small = omega arith;
  distinct = tt;
  loose = λ a _. (refl, refl);
}

abbrev pub list1 : DList
list1 = (ListT.append 5 list0).1

pub list1-IsList : IsList list1 (5 ∷ [])
list1-IsList = (append-outside 5 list0-IsList (omega arith) refl (omega arith)).1

abbrev pub list2 : DList
list2 = (ListT.append 7 list1).1

pub list2-IsList : IsList list2 (5 ∷ 7 ∷ [])
list2-IsList = (append-outside 7 list1-IsList (omega arith) refl (omega arith)).1

-- A key under which every thread has stored `p`.
abbrev pub key_of : Ptr → Key
key_of p = record { exists = true; dtor = null; value = λ thread. p; errno = 0 }

-- A world with this queue and this list, in which every thread runs the task 9 and lands in the
-- context 70.
abbrev pub world_of : Queue → DList → World
world_of q l = record {
  taskq = q;
  tasks = l;
  flags = λ t. 0;
  stack = λ t. 40;
  entry = λ t. (0, 0);
  gather = λ t. 60;
  terminated = λ t. false;
  status = λ t. 80;
  func = λ t. 90;
  callback = λ t. null;
  argc = λ t. 0;
  argv = λ t i. null;
  gather_count = λ g. 0;
  gather_task = λ g. null;
  gather_mutex = λ g. true;
  status_at = λ p. 0;
  freed = [];
  task_key = key_of 9;
  context_key = key_of 70;
}
