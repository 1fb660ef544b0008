-- ===== src/Lib.antt =====
-- A formal model of the data path of the Agentic ML Engineering Lab.
--
-- A source simulator publishes feature and label events to Kafka, some of them corrupted on purpose.
-- The stream ingestor validates them, writes the valid ones to PostgreSQL idempotently, sends the
-- others to a dead-letter topic, and commits the offsets afterwards. A batch pipeline moves the landed
-- rows, window by window, through a validation to the curated tables, joins features and labels into
-- training records, and sends the new features to the online feature store. The inference API fetches
-- an entity's features there, scores them with the champion model, stores the prediction and publishes
-- an event. A training run loads, checks and splits the labelled entities, fits a model and registers
-- it as the candidate, which becomes the champion by a promotion.
--
-- Base: shared notation, lists, dicts, equality, exceptions as values (Exc, Result).
-- Schemas: libs/amel_common/src/amel_common/schemas/events.py. Values holds JSON and the parameter
--   Pydantic (its conversions with the laws that it documents); Features the 28 names.
-- Db: Session models `session_scope` of libs/amel_db/src/amel_db/session.py. Upsert is the interface
--   of `INSERT ... ON CONFLICT DO NOTHING RETURNING` with PostgreSQL's documented behaviour as laws,
--   Table adds a SELECT to it, and Memory and MemoryTable are tables that meet them. Block gives the
--   statements of one transaction, each of which may raise, and Batches the loop of upserts in slices.
--   Models has the rows of libs/amel_db/src/amel_db/models.py.
-- Ingestor: services/stream_ingestor/src/stream_ingestor. Write, Batch, Poll, Loop and Probes follow
--   consumer.py and api.py, Validate its `_validate`; the modules below them hold the proofs. The
--   retry loop runs on fuel `max_retries + 1`, the number of its attempts.
-- Pipeline: infra/airflow/dags/higgs_pipeline_tasks.py, higgs_pipeline.py beside it, and
--   libs/amel_lake/src/amel_lake. Watermark, Validation and Keys follow the files of that name; Extract,
--   Curate, Gold, Windows and FeatureStore the tasks in their order; Runs is the system of concurrent and
--   retried runs as a step relation, RunRecord the row of a run in pipeline_runs. `_chunked` runs on the length of the rows as fuel: a slice of a
--   positive size takes at least one row.
-- Materialize: ml/feature_repo/scripts/materialize.py.
-- Inference: apps/inference_api/src/inference_api. Model, Features, Service and Api follow the files of
--   that name, Service also store.py and Api publisher.py; Server is the refresh in api.py, by the
--   start, the refresh loop and POST /model/refresh.
-- Training: ml/training/src/amel_training. Promote, Dataset and Split follow the files of that name; Checks
--   is validate_training_dataset and Steps the other steps of steps.py over a dictionary of files; Run
--   is train.py with provenance.py and compute_metrics of evaluate.py.
-- Simulator: services/source_simulator/src/source_simulator. Malformed and DelayQueue follow the files
--   malformed.py and delay_queue.py, Dataset dataset.py, and Runner simulator.py, with producer.py in it:
--   Events has the events of a row, Loop the thread, Probes the probes with the codes of api.py, Rate
--   `_effective_rate`. `stream_rows` runs on a number of passes as fuel; n passes give n rows.
--
-- Pydantic, Pandera, Kafka, PostgreSQL, pandas' sort, MLflow, scikit-learn and Feast are parameters
-- with the laws that the code relies on. Floating-point numbers are a type R; a time of the batch
-- pipeline, the inference API and the simulator is a number of microseconds. Beside the newest
-- labels of a training run, the order of the rows that a SELECT returns is not modelled, nor are logging, metrics beside the counters of the ingestor
-- and of the predictions, the object store's transport and the files that stage a frame between two
-- tasks. A file of the training steps is read back as it was written. A call that never returns, as of a
-- PostgreSQL that hangs, is not modelled: every call of a library returns or raises. A dead letter is
-- handed to the Kafka producer, and the report of its delivery is only logged. A commit that raises is
-- taken for a rollback, so a connection lost after the server has committed is left out. The ids that
-- MLflow gives to runs are a function of their number, so two runs have the same id only as runs of one
-- number of two equal servers.
-- The submission to Kubeflow, the migrations, the definitions for Feast and the scripts are not modelled:
-- they call other programs or declare data.
pub mod Base
pub mod Schemas
pub mod Db
pub mod Ingestor
pub mod Pipeline
pub mod Materialize
pub mod Inference
pub mod Training
pub mod Simulator
pub mod Tests
