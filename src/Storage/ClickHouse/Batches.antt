-- ===== src/Storage/ClickHouse/Batches.antt =====
-- Every record is in one batch, or in the buffer.
use apfsds_rs.Base.{
  ℕ, ◌<◌, ◌≡◌, refl, ap, sym, ◌∙◌, Bool, true, false, List, [], ◌∷◌, ◌++◌, append-nil, append_assoc,
  Result, ok, arith, length, leb, if◌then◌else◌,
}
use apfsds_rs.Protocol.Auth.{ConnMeta}
use apfsds_rs.Storage.ClickHouse.{
  ConnectionRecord, ClickHouseBackup, from_conn_meta, flush, record_connection, insert_answer,
  forget_count, Flushed, ClickHouseError, ClickHouseConfig,
}

abbrev Insert : Type 0
Insert = List ConnectionRecord → Result (List ℕ) (Unit {0})

pub data Op : Type 0 where
  record_op : Insert → ℕ → ConnMeta → ℕ → Op
  flush_op : Insert → Op

-- The state and the batches, one behind the other.
abbrev pub step : ClickHouseBackup → Op → ClickHouseBackup × List ConnectionRecord
step b (record_op insert conn_id meta now) =
    let r = record_connection insert b conn_id meta now in (r.0, r.1)
step b (flush_op insert) = let r = flush insert b in (r.0, r.1.0)

abbrev pub run : ClickHouseBackup → List Op → ClickHouseBackup × List ConnectionRecord
run b [] = (b, [])
run b (op ∷ ops) =
    let first : ClickHouseBackup × List ConnectionRecord = step b op in
    let later : ClickHouseBackup × List ConnectionRecord = run first.0 ops in
    (later.0, first.1 ++ later.1)

abbrev pub recorded : List Op → List ConnectionRecord
recorded [] = []
recorded (record_op insert conn_id meta now ∷ ops) = from_conn_meta conn_id meta now ∷ recorded ops
recorded (flush_op insert ∷ ops) = recorded ops

-- What a step owes, with what it records.
abbrev pub Keeps :
    ClickHouseBackup → List ConnectionRecord → ClickHouseBackup × List ConnectionRecord → Type 0
Keeps b records s =
    (s.0.config ≡ b.config)
    × (s.1 ++ s.0.buffer ≡ b.buffer ++ records)
    × (0 < b.config.batch_size
        → length b.buffer < b.config.batch_size
        → length s.0.buffer < b.config.batch_size)

step-Keeps :
    (b : ClickHouseBackup) (op : Op)
    → b.config.enabled ≡ true
    → Keeps b (recorded (op ∷ [])) (step b op)
unfolding record_connection flush
step-Keeps b (flush_op insert) on = by_flag b.config.enabled on
  where
    by_flag :
        (e : Bool)
        → e ≡ true
        → let r : ClickHouseBackup × Flushed ConnectionRecord =
            if e
            then (record b { buffer = [] }, (b.buffer, insert_answer insert b.buffer))
            else (b, ([], ok 0)) in
          Keeps b [] (r.0, r.1.0)
    by_flag true e = (refl, refl, λ pos low. pos)
    by_flag false e = absurd (cc)
step-Keeps b (record_op insert conn_id meta now) on =
    by_flags b.config.enabled (leb b.config.batch_size (length pushed.buffer)) on refl
  where
    pushed : ClickHouseBackup
    pushed = record b { buffer = b.buffer ++ (from_conn_meta conn_id meta now ∷ []) }

    by_flags :
        (e full : Bool)
        → e ≡ true
        → leb b.config.batch_size (length pushed.buffer) ≡ full
        → let flushed : ClickHouseBackup × Flushed ConnectionRecord =
            if e
            then (
              record pushed { buffer = [] },
              (pushed.buffer, insert_answer insert pushed.buffer),
            )
            else (pushed, ([], ok 0)) in
          let r : ClickHouseBackup × List ConnectionRecord × Result ClickHouseError (Unit {0}) =
            if e
            then if full
              then (flushed.0, flushed.1.0, forget_count flushed.1.1)
              else (pushed, [], ok tt)
            else (b, [], ok tt) in
          Keeps b (from_conn_meta conn_id meta now ∷ []) (r.0, r.1)
    by_flags false full e f = absurd (cc)
    by_flags true true e f = (refl, append-nil pushed.buffer, λ pos low. pos)
    by_flags true false e f = (refl, refl, λ pos low. ground arith)

recorded_step : (op : Op) (ops : List Op) → recorded (op ∷ ops) ≡ recorded (op ∷ []) ++ recorded ops
recorded_step (record_op insert conn_id meta now) ops = refl
recorded_step (flush_op insert) ops = refl

-- With the backup enabled, whatever the database answers to each batch: the batches that it was
-- given, and behind them the buffer, are exactly the records made so far, each once and in order;
-- and where a batch is at least one record and the buffer held fewer records than a batch at the
-- start, it holds fewer than a batch at the end.
pub run-Keeps :
    (b : ClickHouseBackup) (ops : List Op)
    → b.config.enabled ≡ true
    → Keeps b (recorded ops) (run b ops)
run-Keeps b [] on = (refl, sym (append-nil b.buffer), λ pos low. low)
run-Keeps b (op ∷ ops) on =
    let first : ClickHouseBackup × List ConnectionRecord = step b op in
    let (same, kept, room) = step-Keeps b op on in
    let (same', kept', room') =
      run-Keeps first.0 ops (ap (λ (c : ClickHouseConfig). c.enabled) same ∙ on) in
    (
      same' ∙ same,
      append_assoc first.1 (run first.0 ops).1 (run first.0 ops).0.buffer
          ∙ ap (◌++◌ first.1) kept'
          ∙ sym (append_assoc first.1 first.0.buffer (recorded ops))
          ∙ ap (λ (l : List ConnectionRecord). l ++ recorded ops) kept
          ∙ append_assoc b.buffer (recorded (op ∷ [])) (recorded ops)
          ∙ ap (◌++◌ b.buffer) (sym (recorded_step op ops)),
      λ pos low.
          let size : first.0.config.batch_size ≡ b.config.batch_size =
            ap (λ (c : ClickHouseConfig). c.batch_size) same in
          let mid : length first.0.buffer < b.config.batch_size = room pos low in
          omega (arith, size, mid, room' (omega (arith, size)) (omega (arith, size, mid))),
    )
