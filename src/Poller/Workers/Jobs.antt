-- ===== src/Poller/Workers/Jobs.antt =====
-- No worker returns while a job is left, unless the context was cancelled.
use bcrstracking.Prelude.{
  length-set, get_elem?, set, ℕ, zero, is_positive, magnitude_pos, replicate, suc, ◌<◌, Option,
  none, some, Bool, true, false, ◌||◌, List, [], ◌∷◌, ◌≡◌, refl, ap, subst, arith, Option-cases,
  eq_of-some, Bool-cases, ltb, length, List-cases, inl, inr,
}
use bcrstracking.Model.{Time, Rvm, BinStatus}
use bcrstracking.Config.{Config}
use bcrstracking.Batch.{BatchBuffer, step}
use bcrstracking.Poller.Workers.{
  has_returned, Worker, worker_count, scraped_capacity, start_pool, idle, asking, handing, sending,
  returned, Pool, Act, works, collects, cancels, buffer_moves, answer, begin, advance, move,
  run_pool,
}

abbrev pub any_returned : List Worker → Bool
any_returned [] = false
any_returned (x ∷ rest) = has_returned x || any_returned rest

any_returned-set :
    (i : ℕ) (y : Worker) (pool : List Worker)
    → has_returned y ≡ false
    → any_returned (set pool i y) ≡ true
    → any_returned pool ≡ true
any_returned-set i y [] still h = h
any_returned-set zero y (x ∷ rest) still h = ground arith
any_returned-set (suc i) y (x ∷ rest) still h = ground (arith, any_returned-set i y rest still)

-- There are workers, and one has returned only if no job is left or the context is cancelled.
pub record IsServed (s : Pool) : Type 0 where
  pub staffed : 0 < length s.workers
  pub served : s.cancelled ≡ false → any_returned s.workers ≡ true → s.jobs ≡ []

module _ (has_client : Bool) (api : Rvm → Option (List BinStatus)) (clock : Rvm → Time) where
  begin-has_returned : (rvm : Rvm) → has_returned (begin has_client api clock false rvm) ≡ false
  begin-has_returned rvm = ground arith

  answer-has_returned :
      (rvm : Rvm) (reply : Option (List BinStatus))
      → has_returned (answer has_client api clock rvm reply) ≡ false
  answer-has_returned rvm none = refl
  answer-has_returned rvm (some bins) = refl

  -- A step that leaves the jobs and lets no worker return.
  IsServed-set :
      (i : ℕ) (y : Worker) (s : Pool)
      → has_returned y ≡ false
      → IsServed s
      → IsServed (record s { workers = set s.workers i y })
  IsServed-set i y s still h = record {
    staffed = omega (arith, length-set s.workers i y, h.staffed);
    served = λ c some_returned. h.served c (any_returned-set i y s.workers still some_returned);
  }

  -- A worker that finds the channel of jobs closed and empty returns.
  IsServed-return :
      (i : ℕ) (s : Pool)
      → s.jobs ≡ []
      → IsServed s
      → IsServed (record s { workers = set s.workers i returned })
  IsServed-return i s none_left h = record {
    staffed = omega (arith, length-set s.workers i returned, h.staffed);
    served = λ c some_returned. none_left;
  }

  -- A worker that receives a job.
  IsServed-receive :
      (i : ℕ) (s : Pool) (rvm : Rvm) (rest : List Rvm)
      → s.jobs ≡ rvm ∷ rest
      → IsServed s
      → IsServed (record s {
        jobs = rest;
        workers = set s.workers i (begin has_client api clock s.cancelled rvm);
      })
  IsServed-receive i s rvm rest next h = record {
    staffed =
        omega
          (arith, length-set s.workers i (begin has_client api clock s.cancelled rvm), h.staffed);
    served = λ c some_returned.
        let at_work : has_returned (begin has_client api clock s.cancelled rvm) ≡ false =
          rw c (begin-has_returned rvm) in
        let none_left = h.served c (
          any_returned-set i (begin has_client api clock s.cancelled rvm) s.workers at_work
            some_returned) in
        cc (next, none_left);
  }

  advance-IsServed :
      (x : Worker) (i : ℕ) (s s' : Pool)
      → advance has_client api clock x i s ≡ some s'
      → IsServed s
      → IsServed s'
  unfolding advance
  advance-IsServed idle i s s' e h = elim (List-cases s.jobs) [
    | inl none_left ↦
        subst IsServed (eq_of-some (rw (none_left, advance) at e)) (IsServed-return i s none_left h)
    | inr (rvm, rest, next) ↦
        subst IsServed (eq_of-some (rw (next, advance) at e)) (IsServed-receive i s rvm rest next h)
  ]
  advance-IsServed (asking rvm) i s s' e h = subst IsServed (eq_of-some e) (
      IsServed-set i (answer has_client api clock rvm (api rvm)) s
        (answer-has_returned rvm (api rvm)) h)
  advance-IsServed (handing []) i s s' e h =
      subst IsServed (eq_of-some e) (IsServed-set i idle s refl h)
  advance-IsServed (handing (item ∷ rest)) i s s' e h =
      let sent = IsServed-set i (sending item rest) s refl h in
      subst IsServed (eq_of-some e) (record { staffed = sent.staffed; served = sent.served })
  advance-IsServed (sending item rest) i s s' e h =
      let sent = IsServed-set i (handing rest) s refl h in
      elim (Bool-cases (ltb (length s.scraped) scraped_capacity)) [
        | inl room ↦
            subst IsServed (eq_of-some (rw (room, advance) at e))
              (record { staffed = sent.staffed; served = sent.served })
        | inr full ↦ absurd (ground arith)
      ]
  advance-IsServed returned i s s' e h = ground arith

  move-IsServed :
      (act : Act) (s s' : Pool)
      → move has_client api clock act s ≡ some s'
      → IsServed s
      → IsServed s'
  unfolding move
  move-IsServed (works i) s s' e h = elim (Option-cases (get_elem? s.workers i)) [
    | inl nobody ↦ cc (e, nobody)
    | inr (x, found) ↦ advance-IsServed x i s s' (rw (found, move) at e) h
  ]
  move-IsServed collects s s' e h = elim (List-cases s.scraped) [
    | inl none_left ↦ ground arith
    | inr (item, rest, next) ↦
        subst IsServed (eq_of-some (rw (next, move) at e))
          (record { staffed = h.staffed; served = h.served })
  ]
  move-IsServed cancels s s' e h =
      subst IsServed (eq_of-some e) (record { staffed = h.staffed; served = λ c. cc c })
  move-IsServed (buffer_moves event) s s' e h = elim (Option-cases s.buffer) [
    | inl no_buffer ↦ ground arith
    | inr (buf, present) ↦ elim (Option-cases (step event buf)) [
      | inl stuck ↦ ground arith
      | inr (next, made) ↦
          subst IsServed (eq_of-some (rw (present, made, move) at e))
            (record { staffed = h.staffed; served = h.served })
    ]
  ]

  pub run_pool-IsServed :
      (acts : List Act) (s s' : Pool)
      → run_pool has_client api clock acts s ≡ some s'
      → IsServed s
      → IsServed s'
  unfolding run_pool
  run_pool-IsServed [] s s' e h = subst IsServed (eq_of-some e) h
  run_pool-IsServed (act ∷ acts) s s' e h = elim (Option-cases (move has_client api clock act s)) [
    | inl stuck ↦ ground arith
    | inr (next, moved) ↦
        run_pool-IsServed acts next s' (rw (moved, run_pool) at e)
          (move-IsServed act s next moved h)
  ]

any_returned-replicate : (n : ℕ) → any_returned (replicate n idle) ≡ false
any_returned-replicate zero = refl
any_returned-replicate (suc n) = any_returned-replicate n

length-replicate : (n : ℕ) (x : Worker) → length (replicate n x) ≡ n
length-replicate zero x = refl
length-replicate (suc n) x = ap suc (length-replicate n x)

worker_count_pos : (cfg : Option Config) → 0 < worker_count cfg
worker_count_pos none = omega arith
worker_count_pos (some cfg) = elim (Bool-cases (is_positive cfg.bin_worker_concurrency)) [
  | inl positive ↦ rw positive (magnitude_pos cfg.bin_worker_concurrency positive)
  | inr other ↦ rw other (omega arith)
]

pub start_pool-IsServed :
    (cfg : Option Config) (buffer : Option BatchBuffer) (rvm_list : List Rvm)
    → IsServed (start_pool cfg buffer rvm_list)
unfolding start_pool
start_pool-IsServed cfg buffer rvm_list = record {
  staffed = rw (length-replicate (worker_count cfg) idle) (worker_count_pos cfg);
  served = λ c some_returned. cc (any_returned-replicate (worker_count cfg), some_returned);
}
