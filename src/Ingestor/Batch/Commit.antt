-- ===== src/Ingestor/Batch/Commit.antt =====
-- consumer.py, `_process_batch_inner`: the courses that a batch can take, and the promise that an
-- offset is committed only after what it covers has been handled.
use agentic_ml_engineering_l.Base.{
  ℕ, Option, none, some, List, [], ◌∷◌, ◌≡◌, refl, sym, subst, ◌∙◌, Exc, kafka_exception, Result,
  ok, raise, In, inl, inr, ◌⊎◌, ap,
}
use agentic_ml_engineering_l.Base.Dict.{Dict}
use agentic_ml_engineering_l.Base.Equality.{string_eq, nat_eq, pair_eq}
use agentic_ml_engineering_l.Db.Upsert.{Holds, Holds-insert_self}
use agentic_ml_engineering_l.Ingestor.{Settings, Message, Row, External, World, Env, Key}
use agentic_ml_engineering_l.Ingestor.Write.{Written, write_with_retry}
use agentic_ml_engineering_l.Ingestor.Write.Retry.{Outcome, store, write_with_retry_total}
use agentic_ml_engineering_l.Ingestor.Batch.{
  Progress, collect, next_offsets, commit_offsets, process_batch, after_collect, after_written,
}

-- An offset commit changes neither the database nor the dead letters and their reports.
pub record Keeps {T : Type 0} (w v : World T) : Type 0 where
  pub tables : v.tables ≡ w.tables
  pub dlq : v.dlq ≡ w.dlq
  pub reports : v.reports ≡ w.reports

module _ {B R D T : Type 0} (x : External B R D T) (s : Settings) (env : Env) where
  abbrev pub start : World T → Progress R D T
  start w = record { features_rows = []; labels_rows = []; max_offset = []; world = w }

  -- The loop over the messages raised; the write raised; or both returned and the commit was made.
  pub data Course (batch : List (Message B)) (w : World T)
      : Option (Result (Unit {0}) × World T) → Type 0 where
    unread :
        (e : Exc) (p : Progress R D T)
        → collect x s env batch (start w) ≡ (raise e, p)
        → Course batch w (some (raise e, p.world))
    unwritten :
        (e : Exc) (p : Progress R D T) (r : Written T)
        → collect x s env batch (start w) ≡ (ok tt, p)
        → Outcome x s env p.features_rows p.labels_rows p.world r
        → r.result ≡ raise e
        → Course batch w (some (raise e, r.world))
    written :
        (p : Progress R D T) (r : Written T)
        → collect x s env batch (start w) ≡ (ok tt, p)
        → Outcome x s env p.features_rows p.labels_rows p.world r
        → r.result ≡ ok tt
        → Course batch w
            (some (commit_offsets (next_offsets p.max_offset) env.commit_error r.world))

  Result-cases : (r : Result (Unit {0})) → (r ≡ ok tt) ⊎ ((e : Exc) × (r ≡ raise e))
  Result-cases (ok _) = inl refl
  Result-cases (raise e) = inr (e, refl)

  after_written_ok :
      (d : Dict Key ℕ) (r : Written T)
      → r.result ≡ ok tt
      → after_written x s env d (some r)
        ≡ some (commit_offsets (next_offsets d) env.commit_error r.world)
  after_written_ok d r e = unfold after_written in rw (e, after_written)

  after_written_raise :
      (d : Dict Key ℕ) (r : Written T) {e : Exc}
      → r.result ≡ raise e
      → after_written x s env d (some r) ≡ some (raise e, r.world)
  after_written_raise d r h = unfold after_written in rw (h, after_written)

  after_collect_lem :
      (p : Progress R D T)
      → after_collect x s env (ok tt, p)
        ≡ after_written x s env p.max_offset
            (write_with_retry x s env p.features_rows p.labels_rows p.world)
  after_collect_lem p = unfold after_collect in refl

  after_collect-Course :
      (batch : List (Message B)) (w : World T) (c : Result (Unit {0}) × Progress R D T)
      → collect x s env batch (start w) ≡ c
      → Course batch w (after_collect x s env c)
  after_collect-Course batch w (raise e, p) h = unfold after_collect in unread e p h
  after_collect-Course batch w (ok _, p) h =
      let (r, q, o) = write_with_retry_total x s env p.features_rows p.labels_rows p.world in
      let shown = after_collect_lem p ∙ ap (after_written x s env p.max_offset) q in
      elim (Result-cases r.result) [
        | inl e ↦
            subst (Course batch w) (sym (shown ∙ after_written_ok p.max_offset r e))
              (written p r h o e)
        | inr (exc, e) ↦
            subst (Course batch w) (sym (shown ∙ after_written_raise p.max_offset r e))
              (unwritten exc p r h o e)
      ]

  -- The course of every batch; so every batch ends.
  pub process_batch-Course :
      (batch : List (Message B)) (w : World T) → Course batch w (process_batch x s env batch w)
  process_batch-Course batch w =
      unfold process_batch in after_collect-Course batch w (collect x s env batch (start w)) refl

  pub Holds-store :
      (rows : List (Row R D)) (t : T) (r : Row R D) → In r rows → Holds x.landing (store x rows t) r
  Holds-store [] t r i = elim i [ ]
  Holds-store (a ∷ rows) t r i = Holds-insert_self x.landing (a ∷ rows) t r i

  pub commit_offsets-Keeps :
      (offsets : List (Key × ℕ)) (error : Option Exc) (w : World T)
      → Keeps w (commit_offsets offsets error w).1
  unfolding commit_offsets
  commit_offsets-Keeps offsets none w = record { tables = refl; dlq = refl; reports = refl }
  commit_offsets-Keeps offsets (some (kafka_exception text)) w = record {
    tables = refl;
    dlq = refl;
    reports = refl;
  }
  commit_offsets-Keeps offsets (some _) w = record { tables = refl; dlq = refl; reports = refl }
