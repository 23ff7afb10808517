-- ===== src/Storage/Sink.antt =====
-- The inserts of internal/storage/clickhouse.go as the sink of the batch buffer.
use bcrstracking.Prelude.{
  ℕ, suc, String, Option, none, some, Bool, true, false, List, [], ◌∷◌, ◌++◌, map, ◌≡◌, ◌⊎◌, inl,
  inr, refl, sym, ap, ◌∙◌, arith, Option-cases, is_none, if◌then◌else◌, map-append, append-nil,
  subst,
}
use bcrstracking.Model.{Duration, Rvm, RvmEvent, BinStatus}
use bcrstracking.Errors.{other, wrapped, Error, ok, err, Result-cases}
use bcrstracking.Metrics.{Metrics}
use bcrstracking.Batch.{Stream, flush_section}
use bcrstracking.Storage.{
  Row, rvm_row, event_row, bin_row, BatchReply, Inserted, append_rows, insert_rows, insert_rvms,
  insert_events, insert_bins,
}

-- The rows that the connection has accepted: those of a batch that came to Send, if Send answered
-- with no error, whatever the insert makes of the answer.
abbrev pub accepted : BatchReply → Inserted → List Row
accepted reply out = elim reply.send [
  | some e ↦ []
  | none ↦ elim out.sent [ none ↦ [] | some (table, rows) ↦ rows ]
]

append_rows_ok {ℓ} :
    {A : Type ℓ} (failure : String) (row : A → Row) (answers : ℕ → Option Error) (n : ℕ)
    (xs : List A) (rows : List Row)
    → append_rows failure row answers n xs ≡ ok rows
    → rows ≡ map row xs
unfolding append_rows
append_rows_ok failure row answers n [] rows e = ground arith
append_rows_ok failure row answers n (x ∷ rest) rows e = elim (Option-cases (answers n)) [
  | inr (failed, why) ↦ absurd (ground arith)
  | inl appended ↦ elim (Result-cases (append_rows failure row answers (suc n) rest)) [
    | inr (failed, why) ↦ absurd (ground arith)
    | inl (behind, done) ↦
        ground (arith, append_rows_ok failure row answers (suc n) rest behind done)
  ]
]

-- An insert sends nothing or all its rows, and it reports no error exactly when the connection has
-- accepted them all; otherwise the connection has accepted none.
abbrev pub IsAtomic {ℓ} :
    {A : Type ℓ} → String → (A → Row) → BatchReply → List A → Inserted → Type 0
IsAtomic table row reply xs out =
    ((out.sent ≡ none) ⊎ (out.sent ≡ some (table, map row xs)))
    × (accepted reply out ≡ (if is_none out.error then map row xs else []))

module _ {ℓ} {A : Type ℓ} (table unprepared failure : String) (row : A → Row) where
  accepted-nothing :
      (reply : BatchReply) (e : Option Error)
      → accepted reply (record { error = e; sent = none }) ≡ []
  accepted-nothing reply e = ground arith

  IsAtomic-failed :
      (reply : BatchReply) (xs : List A) (e : Error)
      → IsAtomic table row reply xs (record { error = some e; sent = none })
  IsAtomic-failed reply xs e = (inl refl, accepted-nothing reply (some e))

  IsAtomic-sent :
      (reply : BatchReply) (xs : List A) (rows : List Row)
      → rows ≡ map row xs
      → IsAtomic table row reply xs (record { error = reply.send; sent = some (table, rows) })
  IsAtomic-sent reply xs rows e = (
    inr (ap (λ sent. some (table, sent)) e),
    elim (Option-cases reply.send) [ inl took ↦ ground arith | inr (why, refused) ↦ ground arith ],
  )

  insert_rows_sent :
      (reply : BatchReply) (x : A) (rest : List A) (rows : List Row)
      → reply.prepare ≡ none
      → append_rows failure row reply.append 0 (x ∷ rest) ≡ ok rows
      → insert_rows table unprepared failure row true reply (x ∷ rest)
        ≡ record { error = reply.send; sent = some (table, rows) }
  unfolding insert_rows
  insert_rows_sent reply x rest rows prepared done = simp (prepared, done, insert_rows)

  insert_rows_unprepared :
      (reply : BatchReply) (x : A) (rest : List A) (e : Error)
      → reply.prepare ≡ some e
      → insert_rows table unprepared failure row true reply (x ∷ rest)
        ≡ record { error = some (wrapped unprepared e); sent = none }
  unfolding insert_rows
  insert_rows_unprepared reply x rest e why = simp (why, insert_rows)

  insert_rows_failed :
      (reply : BatchReply) (x : A) (rest : List A) (e : Error)
      → reply.prepare ≡ none
      → append_rows failure row reply.append 0 (x ∷ rest) ≡ err e
      → insert_rows table unprepared failure row true reply (x ∷ rest)
        ≡ record { error = some e; sent = none }
  unfolding insert_rows
  insert_rows_failed reply x rest e prepared why = simp (prepared, why, insert_rows)

  insert_rows-IsAtomic :
      (has_conn : Bool) (reply : BatchReply) (xs : List A)
      → IsAtomic table row reply xs (insert_rows table unprepared failure row has_conn reply xs)
  unfolding insert_rows
  insert_rows-IsAtomic has_conn reply [] = (inl refl, accepted-nothing reply none)
  insert_rows-IsAtomic false reply (x ∷ rest) =
      IsAtomic-failed reply (x ∷ rest) (other "clickhouse connection is nil")
  insert_rows-IsAtomic true reply (x ∷ rest) = elim (Option-cases reply.prepare) [
    | inr (failed, why) ↦
        subst (IsAtomic table row reply (x ∷ rest))
          (sym (insert_rows_unprepared reply x rest failed why))
          (IsAtomic-failed reply (x ∷ rest) (wrapped unprepared failed))
    | inl prepared ↦ elim (Result-cases (append_rows failure row reply.append 0 (x ∷ rest))) [
      | inr (failed, why) ↦
          subst (IsAtomic table row reply (x ∷ rest))
            (sym (insert_rows_failed reply x rest failed prepared why))
            (IsAtomic-failed reply (x ∷ rest) failed)
      | inl (rows, done) ↦
          subst (IsAtomic table row reply (x ∷ rest))
            (sym (insert_rows_sent reply x rest rows prepared done))
            (IsAtomic-sent reply (x ∷ rest) rows
              (append_rows_ok failure row reply.append 0 (x ∷ rest) rows done))
    ]
  ]

-- Each insert sends nothing or, to its own table, the values of all its rows in order; Send has
-- accepted all the rows if the insert reports no error, and none if it reports one.
pub inserts-IsAtomic :
    (has_conn : Bool) (reply : BatchReply) (rvms : List Rvm) (events : List RvmEvent)
    (bins : List BinStatus)
    → IsAtomic "rvm_current" rvm_row reply rvms (insert_rvms has_conn reply rvms)
      × IsAtomic "rvm_events" event_row reply events (insert_events has_conn reply events)
      × IsAtomic "rvm_bin_snapshots" bin_row reply bins (insert_bins has_conn reply bins)
unfolding insert_rvms insert_events insert_bins
inserts-IsAtomic has_conn reply rvms events bins = (
  insert_rows-IsAtomic "rvm_current" _ _ rvm_row has_conn reply rvms,
  insert_rows-IsAtomic "rvm_events" _ _ event_row has_conn reply events,
  insert_rows-IsAtomic "rvm_bin_snapshots" _ _ bin_row has_conn reply bins,
)

committed-flush_section {ℓ} :
    {A : Type ℓ} (name : String) (done : Bool) (d : Duration) (chan pending committed : List A)
    (metrics : Option Metrics)
    → (flush_section name true done d
        (record { chan = chan; pending = pending; committed = committed }, metrics)).0.committed
      ≡ (if done then committed ++ pending else committed)
unfolding flush_section
committed-flush_section name done d chan [] committed metrics = ground (arith, append-nil committed)
committed-flush_section name done d chan (x ∷ rest) committed metrics = ground arith

map_section {ℓ} :
    {A : Type ℓ} (row : A → Row) (done : Bool) (committed pending : List A)
    → map row (if done then committed ++ pending else committed)
      ≡ map row committed ++ (if done then map row pending else [])
map_section row true committed pending = map-append row committed pending
map_section row false committed pending = sym (append-nil (map row committed))

-- One section of the worker's flush, with an insert that is atomic as its sink.
section_accepted {ℓ} :
    {A : Type ℓ} (table name : String) (row : A → Row) (d : Duration) (s : Stream A)
    (metrics : Option Metrics) (reply : BatchReply) (out : Inserted)
    → IsAtomic table row reply s.pending out
    → map row (flush_section name true (is_none out.error) d (s, metrics)).0.committed
      ≡ map row s.committed ++ accepted reply out
section_accepted table name row d s metrics reply out atomic =
    ap (map row)
      (committed-flush_section name (is_none out.error) d s.chan s.pending s.committed metrics)
    ∙ map_section row (is_none out.error) s.committed s.pending
    ∙ ap (λ rows. map row s.committed ++ rows) (sym atomic.1)

-- With the inserts of Storage as the sink of the worker, each section of its flush commits exactly the
-- rows that Send has accepted, in order: the committed rows of the table grow by these, and stay as
-- they are when nothing is accepted.
pub flush_section-accepted :
    (has_conn : Bool) (reply : BatchReply) (d : Duration) (metrics : Option Metrics)
    (rvms : Stream Rvm) (events : Stream RvmEvent) (bins : Stream BinStatus)
    → let out_rvms = insert_rvms has_conn reply rvms.pending in
      let out_events = insert_events has_conn reply events.pending in
      let out_bins = insert_bins has_conn reply bins.pending in
      (map rvm_row
          (flush_section "rvm_current" true (is_none out_rvms.error) d (rvms, metrics)).0.committed
        ≡ map rvm_row rvms.committed ++ accepted reply out_rvms)
      × (map event_row
            (flush_section "rvm_events" true
              (is_none out_events.error)
              d
              (events, metrics)).0.committed
          ≡ map event_row events.committed ++ accepted reply out_events)
      × (map bin_row
            (flush_section "rvm_bin_snapshots" true
              (is_none out_bins.error)
              d
              (bins, metrics)).0.committed
          ≡ map bin_row bins.committed ++ accepted reply out_bins)
flush_section-accepted has_conn reply d metrics rvms events bins =
    let atomic = inserts-IsAtomic has_conn reply rvms.pending events.pending bins.pending in
    (
      section_accepted "rvm_current" "rvm_current" rvm_row d rvms metrics reply _ atomic.0,
      section_accepted "rvm_events" "rvm_events" event_row d events metrics reply _ atomic.1,
      section_accepted "rvm_bin_snapshots" "rvm_bin_snapshots" bin_row d bins metrics reply _
          atomic.2,
    )
