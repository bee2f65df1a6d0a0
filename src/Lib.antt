-- ===== src/Lib.antt =====
-- JustKit is a toolkit of C data structures and helpers of servers.  This library models its tree, its
-- timers, its heap, its hash table, its Bloom filter, its spin lock, its thread pool, asynchronous I/O,
-- I/O events, rings of nodes and skip list, and proves what they promise.
--
-- Avl (jk_avl.c, jk_avl.h): the balanced tree.  `jk_avl_rebalance`, `jk_avl_insert`, `jk_avl_remove`
-- and the searches are `rebalance`, `insert`, `remove`, `find_min`, `find_max`, `find_node` and
-- `find`.  A tree is a value; the stack of pointers to slots is a path of frames from a slot up to
-- the root, and a push on 41 of them is a fault.  Avl/Order, Avl/Keys and Avl/Balance hold the facts
-- on order, keys and heights, Avl/Climb the way up to the root.
--
-- Timer (jk_timer.c, jk_timer.h): timers in such a tree, keyed by the millisecond at which they are
-- due.  `push`, `min_node`, `process_timeout` and `destroy` are the functions of these names; they
-- call Avl's `insert`, `remove` and `find_min` as the source does.  The clock, malloc and the
-- callbacks are parameters (`World`).  The processing loop runs on fuel, since a callback may ask for
-- ever to be called again.
--
-- Heap (jk_heap.c, jk_heap.h): the array heap with any comparison function.  A cell that realloc gave
-- and nothing wrote is `none`, and reading it is a fault.  A position that an `int` cannot hold is a
-- fault, so lengths are below 2^30 where a right child is computed.  Both loops run on fuel, one more
-- than the position or the length, which is shown to be enough.
--
-- Hash (jk_hash.c, jk_hash.h): the table of chains.  A `long` and an `int` are their patterns of 64
-- and 32 bits.  An index before the array is a fault.  malloc and calloc are Boolean arguments, and
-- the values given to the user's `free` are a result.  The hash function is a parameter, of which
-- most theorems ask that its values fit an `int` and are not negative; Hash/Wide is about the others.
-- Hash/Keys, Hash/Chains and Hash/Buckets hold the facts on one entry, one chain and the array,
-- Hash/Fresh, Hash/Moves and Hash/Rehash are about new arrays, Hash/Writes and Hash/Outcomes about
-- the operations.
--
-- Bloom (jk_bloom_filter.c, jk_bloom_filter.h): the filter over the caller's array.  The hash function
-- is a parameter and `rand` a stream; a write beyond the array, a size that an `int` cannot hold and a
-- division by a size of zero are faults.  Bloom/Bits is about one byte, Bloom/Marks about the set of
-- the bits, Bloom/Promise about keys.
--
-- Spin (jk_spinlock.c): the lock word and the places of the threads.  A schedule is the list of the
-- threads in the order of their atomic steps.  Spin/Exclusion is about the owner of the word,
-- Spin/Yields about the two loops.
--
-- Pool (jk_thread_pool.c, jk_thread_pool.h): the queue of tasks, and where each worker is in
-- `jk_thread_loop`.  What a thread does under the lock is one step; a schedule is a list of steps of
-- workers, of wake-ups without a signal and of calls of `jk_thread_pool_push` (`push`).  `new` and
-- `is_ready` are `jk_thread_pool_new`, `tell_exit` and `free_tasks` `jk_thread_pool_destroy`.  A count
-- of tasks that an `int` cannot hold is a fault.  Pool/Weights counts tasks, Pool/Tasks is about what
-- becomes of them, Pool/Wakeups about lost signals, Pool/Start, Pool/Ends and Pool/Exit about the wait
-- for the threads and their end, Pool/Idle about pools without tasks; Pool/Sums and Pool/Schedules
-- hold what these share.
--
-- Aio (jk_aio.c, jk_aio.h): requests, which the thread pool executes.  The requests are in a memory of
-- addresses, and using one that is freed is a fault; the finished ones are linked through it.
-- `init`, `waiting_requests`, `wait`, `poll`, `submit`, `execute` and `finish_request` are
-- `jk_aio_init`, `jk_aio_nreqs`, `jk_aio_wait`, `jk_aio_poll`, `jk_aio_submit`, `jk_aio_execute` and
-- `jk_aio_fininsh`; Aio/Api has the seven functions that submit.  The calls that a step of the pool
-- makes are delivered to `execute` and `finish_request`.  Aio/Chain and Aio/Finished are about the
-- linked list, Aio/Flight about the requests in the pool, Aio/Sound and Aio/Service about the whole,
-- Aio/Start about `init`.
-- `poll` runs on fuel, one more than the number of finished requests.
--
-- Event (jk_event.c, jk_event.h): the nodes of a set of events, and a backend as a record of its two
-- operations that change what is watched.  `new`, `add` and `del` are `jk_event_new`, `jk_event_add`
-- and `jk_event_del`; `fire` is the body of the loops that call handlers, and a handler may add and
-- delete.  Event/Epoll, Event/Kqueue and Event/Select are the backends; Event/Promise states what a
-- backend promises, Event/Registry and Event/Rounds what follows for all of them, and the three
-- Service modules fill it.  Event/Select/Sets is about the sets of select, Event/Select/RoundTrip
-- about adding and deleting.  The loop of select runs on fuel, since handlers may move its end; one
-- more than `max_events` is enough.  Kqueue keeps the promise where each change is of one event.
--
-- Ring (jk_list.h): the links of nodes in a ring.  `init`, `add`, `del`, `for_each`,
-- `for_each2`, `for_each_safe` and `for_each2_safe` are the functions and loops of these names; the
-- loops run on fuel, one more than the number of nodes.  Ring/Segments is about the links between two
-- nodes, Ring/Mirror about the ring the other way round, Ring/Visits about the loops.
--
-- Skip (jk_skip.c, jk_skip.h): the skip list.  A node is what its address holds, with the number of
-- pointers that it was allocated for, 0 where it is free; a pointer beyond those, and one that nothing
-- has written, is a fault to read.  `insert`, `delete`, `find_node`, `find`, `new` and `free` are the
-- functions of these names; `search` and `descend` are their outer loops, and `walk` the inner one,
-- on fuel, one more than the number of nodes.  The other loops count their rounds.  What malloc and
-- `random` return is a parameter.
-- Skip/Towers has the skip list as a list of towers, Skip/Search where the searches end, Skip/Relink
-- what a change of pointers does to the towers, Skip/Link and Skip/Unlink the two loops that make one,
-- Skip/Cut and Skip/Between the towers on both sides of a key, Skip/NewTower and Skip/Removed the memory
-- around a new and a deleted tower, Skip/Raise and Skip/Lower the level of the list, Skip/Descend and
-- Skip/Find the search without `update`, Skip/Life `new` and `free`, Skip/Entries the sorted list of
-- keys and values, and Skip/Session sequences of calls.
--
-- Prelude: the outcome `Run` of code that may fault or exhaust its fuel, tests on the native numbers,
-- and facts on lists.
--
-- Not modelled: the release of a struct itself, which no operation observes; callbacks that change the
-- timer, `finish` functions that submit or poll, and handlers that wait for events themselves; negative
-- descriptors; the types of jk_types.h and the Makefile.
pub mod Prelude
pub mod Avl
pub mod Timer
pub mod Heap
pub mod Hash
pub mod Bloom
pub mod Spin
pub mod Pool
pub mod Aio
pub mod Event
pub mod Ring
pub mod Skip
