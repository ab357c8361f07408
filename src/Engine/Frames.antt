-- ===== src/Engine/Frames.antt =====
-- The calls of the engine of src/astervec_db.cc that leave the points as they are.
use aster_vec.Base.{
  ℕ, ◌+◌, ◌%◌, ◌^◌, ◌≡◌, refl, ap, sym, ◌∙◌, Option, none, some, leb, ◌==◌, Bool-cases, inl, inr,
}
use aster_vec.Base.Bytes.{Bytes}
use aster_vec.Base.Status.{Result, ok}
use aster_vec.OpLog.Record.{OpRecord}
use aster_vec.OpLog.Writer.{OpLog, AppendIo, append}
use aster_vec.MetadataStore.Store.{Kv}
use aster_vec.MetadataStore.{delete_row}
use aster_vec.Engine.{
  Graph, Engine, counted, logged, append_to_log, logged_record, log_op, with_rows, drop_row,
}

-- Two states of the engine with the same points.
pub record SamePoints {G D : Type 0} (e e' : Engine G D) : Type 0 where
  pub ids : e'.ids ≡ e.ids
  pub graph : e'.graph ≡ e.graph
  pub live : e'.live ≡ e.live

-- And with the same log.
pub record IsSame {G D : Type 0} (e e' : Engine G D) : Type 0 where
  pub ids : e'.ids ≡ e.ids
  pub graph : e'.graph ≡ e.graph
  pub live : e'.live ≡ e.live
  pub log : e'.log ≡ e.log

abbrev pub engine_of : {G D A : Type 0} → Engine G D → Option (A × Engine G D) → Engine G D
engine_of e none = e
engine_of e (some (x, e')) = e'

pub IsSame-refl : {G D : Type 0} (e : Engine G D) → IsSame e e
IsSame-refl e = record { ids = refl; graph = refl; live = refl; log = refl }

pub IsSame-trans : {G D : Type 0} {e e1 e2 : Engine G D} → IsSame e e1 → IsSame e1 e2 → IsSame e e2
IsSame-trans one two = record {
  ids = two.ids ∙ one.ids;
  graph = two.graph ∙ one.graph;
  live = two.live ∙ one.live;
  log = two.log ∙ one.log;
}

module _ {G D V : Type 0} (graph : Graph G V) (kv : Kv D) where
  pub counted-IsSame : (e : Engine G D) → IsSame e (counted graph kv e)
  counted-IsSame e = elim (Bool-cases (e.interval == 0)) [
    | inl off ↦ rw off (record { ids = refl; graph = refl; live = refl; log = refl })
    | inr on ↦ elim (Bool-cases (leb e.interval ((e.ops + 1) % 2 ^ 64))) [
      | inl due ↦ rw (on, due) (record { ids = refl; graph = refl; live = refl; log = refl })
      | inr early ↦ rw (on, early) (record { ids = refl; graph = refl; live = refl; log = refl })
    ]
  ]

  logged-SamePoints :
      (e : Engine G D) (o : Option (Result ℕ × OpLog)) (x : Result ℕ) (e' : Engine G D)
      → logged graph kv e o ≡ some (x, e')
      → SamePoints e e'
  logged-SamePoints e none x e' h = cc
  logged-SamePoints e (some (lsn, log)) x e' h = record {
    ids = ap (λ d. d.ids) same;
    graph = ap (λ d. d.graph) same;
    live = ap (λ d. d.live) same;
  }
    where
      same : e' ≡ record e { log = some log }
      same = ap (engine_of e) (sym h)

  pub append_to_log-SamePoints :
      (io : AppendIo) (r : OpRecord) (e : Engine G D) (l : Option OpLog) (x : Result ℕ)
      (e' : Engine G D)
      → append_to_log graph kv io r e l ≡ some (x, e')
      → SamePoints e e'
  append_to_log-SamePoints io r e none x e' h =
      let same : e' ≡ e = ap (engine_of e) (sym h) in
      record {
        ids = ap (λ d. d.ids) same;
        graph = ap (λ d. d.graph) same;
        live = ap (λ d. d.live) same;
      }
  append_to_log-SamePoints io r e (some log) x e' h = logged-SamePoints e (append io r log) x e' h

  pub with_rows-IsSame :
      (e : Engine G D) (p : Result (Unit {0}) × D) → IsSame e (with_rows graph kv e p).1
  with_rows-IsSame e (s, rows) = record { ids = refl; graph = refl; live = refl; log = refl }

  pub drop_row-IsSame :
      (i : ℕ) (e : Engine G D) (rows : Option D) → IsSame e (drop_row graph kv i e rows).1
  drop_row-IsSame i e none = record { ids = refl; graph = refl; live = refl; log = refl }
  drop_row-IsSame i e (some rows) = with_rows-IsSame e (delete_row kv i rows)

  pub log_op-SamePoints :
      (io : AppendIo) (op r i old : ℕ) (v : Option V) (payload key : Bytes) (e : Engine G D)
      (x : Result ℕ) (d : Engine G D)
      → log_op graph kv io op r i old v payload key e ≡ some (x, d)
      → SamePoints e d
  unfolding log_op
  log_op-SamePoints io op r i old v payload key e x d h =
      let one = counted-IsSame e in
      let two = append_to_log-SamePoints io _ (counted graph kv e) e.log x d h in
      record { ids = two.ids ∙ one.ids; graph = two.graph ∙ one.graph; live = two.live ∙ one.live }

  -- Where there is a log, the record is appended to it.
  pub log_op_lem :
      (io : AppendIo) (op r i old : ℕ) (v : Option V) (payload key : Bytes) (e d : Engine G D)
      (lsn lsn' : ℕ) (log log' : OpLog)
      → e.log ≡ some log
      → append io (logged_record graph kv op r i old v payload key) log ≡ some (ok lsn, log')
      → log_op graph kv io op r i old v payload key e ≡ some (ok lsn', d)
      → d.log ≡ some log'
  unfolding log_op
  log_op_lem io op r i old v payload key e d lsn lsn' log log' there done h =
      let rec = logged_record graph kv op r i old v payload key in
      ap (λ d. d.log) (ap (engine_of e) (sym h))
      ∙ ap (λ l. (engine_of e (append_to_log graph kv io rec (counted graph kv e) l)).log) there
      ∙ ap (λ o. (engine_of e (logged graph kv (counted graph kv e) o)).log) done
