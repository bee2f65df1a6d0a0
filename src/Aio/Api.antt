-- ===== src/Aio/Api.antt =====
-- The functions of jk_aio.c that users call to submit requests.
use just_kit.Prelude.{ℕ, Bool, false, Option, none, some, Run, ok, ◌>>=◌, List, [], ◌∷◌, zero, suc}
use just_kit.Aio.{
  Operate, operate_read, operate_write, operate_open, operate_close, operate_mkdir, operate_rmdir,
  operate_unlink, Request, Aio, System, World, Grant, update, submit, deliver, poll_request,
}
use just_kit.Pool

-- What a call gets of the environment: the choice of malloc for the request, the copy that strdup
-- makes of the path, and what `jk_aio_submit` is granted.
pub record Memory : Type 0 where
  pub choice : ℕ
  pub copy : Option ℕ
  pub grant : Grant

-- `jk_aio_request`
abbrev pub blank : Operate → ℕ → Request
blank kind finish = record {
  kind = kind;
  fd = 0;
  size = 0;
  buf = 0;
  path = 0;
  flags = 0;
  mode = 0;
  result = 0;
  error = 0;
  finish = finish;
  next = 0;
}

abbrev pub store : ℕ → Request → System → System
store a r s = record s { aio = record s.aio { requests = update s.aio.requests a (some r) } }

-- A request that needs no copy of a path is written and submitted.
unfoldable pub send : Memory → Option ℕ → Request → System → Run (Bool × System)
send m none r s = ok (false, s)
send m (some a) r s = submit m.grant a (store a r s)

-- A request with a path: where strdup fails `jk_aio_destory` frees the request.
unfoldable pub send_path : Memory → Option ℕ → Option ℕ → Request → System → Run (Bool × System)
send_path m none copy r s = ok (false, s)
send_path m (some a) none r s =
    ok (false, record s { aio = record s.aio { requests = update s.aio.requests a none } })
send_path m (some a) (some path) r s = submit m.grant a (store a (record r { path = path }) s)

-- A call of one of these functions.
pub data Submission : Type 0 where
  reads writes : (fd buf size finish : ℕ) → Submission
  opens : (flags mode finish : ℕ) → Submission
  closes : (fd finish : ℕ) → Submission
  mkdirs : (mode finish : ℕ) → Submission
  rmdirs unlinks : (finish : ℕ) → Submission

-- `jk_aio_read`, `jk_aio_write`, `jk_aio_open`, `jk_aio_close`, `jk_aio_mkdir`, `jk_aio_rmdir` and
-- `jk_aio_unlink`: 0 and -1 are `true` and `false`.
unfoldable pub request : World → Memory → Submission → System → Run (Bool × System)
request w m (reads fd buf size finish) s =
    send m (w.malloc m.choice s.aio.requests)
      (record (blank operate_read finish) { fd = fd; buf = buf; size = size }) s
request w m (writes fd buf size finish) s =
    send m (w.malloc m.choice s.aio.requests)
      (record (blank operate_write finish) { fd = fd; buf = buf; size = size }) s
request w m (opens flags mode finish) s =
    send_path m (w.malloc m.choice s.aio.requests) m.copy
      (record (blank operate_open finish) { flags = flags; mode = mode }) s
request w m (closes fd finish) s =
    send m (w.malloc m.choice s.aio.requests) (record (blank operate_close finish) { fd = fd }) s
request w m (mkdirs mode finish) s =
    send_path m (w.malloc m.choice s.aio.requests) m.copy
      (record (blank operate_mkdir finish) { mode = mode }) s
request w m (rmdirs finish) s =
    send_path m (w.malloc m.choice s.aio.requests) m.copy (blank operate_rmdir finish) s
request w m (unlinks finish) s =
    send_path m (w.malloc m.choice s.aio.requests) m.copy (blank operate_unlink finish) s

-- What happens next: a step of a worker, a wake-up, a submission, or a round of `jk_aio_poll` at the
-- first finished request, if there is one.
pub data Event : Type 0 where
  works wakes : ℕ → Event
  submits : Memory → Submission → Event
  polls : Event

unfoldable pub poll_round : ℕ → Aio → Run Aio
poll_round zero aio = ok aio
poll_round (suc a) aio = poll_request (suc a) aio

unfoldable pub work : World → Run (List Pool.Call × Pool.Pool) → Aio → Run System
work w done aio = done >>= λ r. deliver w r.0 aio >>= λ aio'. ok (record { aio = aio'; pool = r.1 })

unfoldable pub step : World → Event → System → Run System
step w (works i) s = work w (Pool.worker_step i s.pool) s.aio
step w (wakes i) s = ok (record s { pool = Pool.wake i s.pool })
step w (submits m q) s = request w m q s >>= λ r. ok r.1
step w polls s = poll_round s.aio.rhead s.aio >>= λ aio. ok (record s { aio = aio })

unfoldable pub run : World → List Event → System → Run System
run w [] s = ok s
run w (e ∷ es) s = step w e s >>= run w es
