-- ===== src/Aio.antt =====
-- jk_aio.c and jk_aio.h: requests that the workers of a thread pool execute, and the list of finished
-- ones.  A pointer is an address, and 0 is null.  The system calls, malloc and strdup are the
-- environment's; the copies that strdup makes are not followed.  A `finish` function that itself
-- submits or polls is not modelled.
pub mod Api
pub mod Chain
pub mod Finished
pub mod Flight
pub mod Sound
pub mod Service
pub mod Start
mod Tests
use just_kit.Prelude.{
  ℕ, zero, suc, ◌+◌, ◌-◌, ◌%◌, ◌^◌, Bool, true, false, List, [], ◌∷◌, Option, none, some, Run, ok,
  fault, out_of_fuel, ◌>>=◌, deref, ltb, ◌==◌, ◌≡◌, ◌≢◌, if◌then◌else◌,
}
use just_kit.Pool.{Task, Pool, Call, called, finished, worker_step, wake}
use just_kit.Pool

-- `jk_aio_operate_t`
pub data Operate : Type 0 where
  operate_read operate_write operate_open operate_close operate_mkdir operate_rmdir operate_unlink :
      Operate

-- `jk_aio_request_t`; `next` is an address.
pub record Request : Type 0 where
  pub kind : Operate
  pub fd : ℕ
  pub size : ℕ
  pub buf : ℕ
  pub path : ℕ
  pub flags : ℕ
  pub mode : ℕ
  pub result : ℕ
  pub error : ℕ
  pub finish : ℕ
  pub next : ℕ

-- What the program does not implement: the system calls, with the `errno` that each leaves, the number
-- of bytes that the pipe can hold, and malloc for requests, whose choice depends on what is allocated.
pub record World : Type 0 where
  pub sys_read : (fd buf size : ℕ) → ℕ × ℕ
  pub sys_write : (fd buf size : ℕ) → ℕ × ℕ
  pub sys_close : (fd : ℕ) → ℕ × ℕ
  pub sys_open : (path flags mode : ℕ) → ℕ × ℕ
  pub sys_mkdir : (path mode : ℕ) → ℕ × ℕ
  pub sys_rmdir : (path : ℕ) → ℕ × ℕ
  pub sys_unlink : (path : ℕ) → ℕ × ℕ
  pub pipe_size : ℕ
  pub malloc : ℕ → (ℕ → Option Request) → Option ℕ

-- malloc returns an address that is neither null nor in use.
abbrev pub IsMalloc : World → Type 0
IsMalloc w =
    (n : ℕ) (f : ℕ → Option Request) (a : ℕ) → w.malloc n f ≡ some a → (a ≢ 0) × (f a ≡ none)

-- `jk_aio_t`, with the bytes in its pipe, the requests in memory, and the calls of `finish` functions,
-- the latest first.
pub record Aio : Type 0 where
  pub rhead : ℕ
  pub rtail : ℕ
  pub nreqs : ℕ
  pub ncoms : ℕ
  pub piped : ℕ
  pub requests : ℕ → Option Request
  pub calls : List (ℕ × Request)

-- `aio` and `worker_pool`
pub record System : Type 0 where
  pub aio : Aio
  pub pool : Pool

abbrev pub update : (ℕ → Option Request) → ℕ → Option Request → ℕ → Option Request
update f a v b = if a == b then v else f b

-- `jk_aio_init`: whether `pthread_mutex_init`, `pipe` and `fcntl` on both ends work, and what
-- `jk_thread_pool_new` returns.
pub init : (mutex_works pipe_works reader_works writer_works : Bool) → Option Pool → Option System
init false pipe_works reader_works writer_works pool = none
init true false reader_works writer_works pool = none
init true true false writer_works pool = none
init true true true false pool = none
init true true true true none = none
init true true true true (some pool) = some (record {
  aio = record {
    rhead = 0;
    rtail = 0;
    nreqs = 0;
    ncoms = 0;
    piped = 0;
    requests = λ a. none;
    calls = [];
  };
  pool = pool;
})

-- `jk_aio_nreqs`, as the pattern of an `int`
pub waiting_requests : Aio → ℕ
waiting_requests aio = (aio.nreqs + 2 ^ 64 - aio.ncoms) % 2 ^ 64 % 2 ^ 32

-- What `select` in `jk_aio_wait` returns: less than 0, 0 or more.
pub data Selected : Type 0 where
  select_failed timed_out readable : Selected

-- `jk_aio_wait`: `none` is -1; otherwise the bytes that it has read, which are all.
pub wait : Selected → Aio → Option ℕ × Aio
wait select_failed aio = (none, aio)
wait timed_out aio = (some 0, aio)
wait readable aio = (some aio.piped, record aio { piped = 0 })

-- The switch of `jk_aio_execute`.
pub perform : World → Operate → Request → ℕ × ℕ
perform w operate_read r = w.sys_read r.fd r.buf r.size
perform w operate_write r = w.sys_write r.fd r.buf r.size
perform w operate_close r = w.sys_close r.fd
perform w operate_open r = w.sys_open r.path r.flags r.mode
perform w operate_mkdir r = w.sys_mkdir r.path r.mode
perform w operate_rmdir r = w.sys_rmdir r.path
perform w operate_unlink r = w.sys_unlink r.path

-- `jk_aio_execute`
pub execute : World → ℕ → Aio → Run Aio
execute w a aio = do
  r ← deref (aio.requests a)
  let (result, error) = perform w r.kind r
  ok (record aio {
    requests = update aio.requests a (some (record r { result = result; error = error }));
  })

-- `req->next = ...`
pub set_next : (ℕ → Option Request) → ℕ → ℕ → Run (ℕ → Option Request)
set_next f a next = do r ← deref (f a); ok (update f a (some (record r { next = next })))

-- `if (aio.rtail) aio.rtail->next = req`
pub link_tail : (empty : Bool) → (ℕ → Option Request) → ℕ → ℕ → Run (ℕ → Option Request)
link_tail true f tail a = ok f
link_tail false f tail a = set_next f tail a

-- `jk_aio_fininsh`: the request goes to the end of the list, and a byte into the pipe, which is
-- dropped if the pipe is full.
pub finish_request : World → ℕ → Aio → Run Aio
finish_request w a aio = do
  f ← set_next aio.requests a 0
  f' ← link_tail (aio.rtail == 0) f aio.rtail a
  ok (record aio {
    requests = f';
    rhead = if aio.rhead == 0 then a else aio.rhead;
    rtail = a;
    piped = if ltb aio.piped w.pipe_size then aio.piped + 1 else aio.piped;
  })

-- `jk_aio_destory`: the request and its path are freed.
abbrev pub destroy : ℕ → (ℕ → Option Request) → ℕ → Option Request
destroy a requests = update requests a none

-- One round of the loop of `jk_aio_poll`, at a request: it is taken off the list, its `finish` is
-- called, and it is freed.
pub poll_request : ℕ → Aio → Run Aio
poll_request a aio = do
  r ← deref (aio.requests a)
  ok (record aio {
    rhead = r.next;
    rtail = if r.next == 0 then 0 else aio.rtail;
    ncoms = (aio.ncoms + 1) % 2 ^ 64;
    requests = destroy a aio.requests;
    calls = if r.finish == 0 then aio.calls else (a, r) ∷ aio.calls;
  })

-- `processed++`, of an `int`.
pub count_processed : ℕ → Run ℕ
count_processed processed = if ltb (processed + 1) (2 ^ 31) then ok (processed + 1) else fault

-- `jk_aio_poll`, on fuel: workers may finish requests for ever.
pub poll : ℕ → ℕ → Aio → Run (ℕ × Aio)
poll zero processed aio = out_of_fuel
poll (suc fuel) processed aio =
    let rest =
      poll_request aio.rhead aio
      >>= (λ aio'. count_processed processed >>= λ n. poll fuel n aio') in
    if aio.rhead == 0 then ok (processed, aio) else rest

-- The functions that `jk_aio_submit` gives to the pool.
abbrev pub execute_fn : ℕ
execute_fn = 1

abbrev pub finish_fn : ℕ
finish_fn = 2

abbrev pub task_of : ℕ → Task
task_of a = record { call = execute_fn; arg = a; finish = finish_fn }

-- A worker calls a function of this file.
pub deliver_one : World → Call → Aio → Run Aio
deliver_one w (called task) aio = if task.call == execute_fn then execute w task.arg aio else ok aio
deliver_one w (finished task) aio =
    if task.finish == finish_fn then finish_request w task.arg aio else ok aio

pub deliver : World → List Call → Aio → Run Aio
deliver w [] aio = ok aio
deliver w (c ∷ cs) aio = deliver_one w c aio >>= deliver w cs

-- Whether malloc works for a task, and which worker the system prefers to wake.
pub record Grant : Type 0 where
  pub task_works : Bool
  pub preferred : ℕ

-- `jk_aio_submit`.  Between its two locks nobody reads `nreqs` but `jk_aio_nreqs`.
pub submit : Grant → ℕ → System → Run (Bool × System)
submit g a s = do
  let aio = record s.aio { nreqs = (s.aio.nreqs + 1) % 2 ^ 64 }
  (pushed, pool) ← Pool.push g.task_works g.preferred (task_of a) s.pool
  ok (
    pushed,
    record {
      aio = if pushed then aio else record aio { nreqs = (aio.nreqs + 2 ^ 64 - 1) % 2 ^ 64 };
      pool = pool;
    },
  )
