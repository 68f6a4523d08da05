-- ===== src/Managed/Pipeline.antt =====
-- src/managed.rs: the stream of part uploads, which `buffer_unordered(concurrency)` drives: it keeps
-- at most `concurrency` uploads in flight, each holding the buffer of its part, and they end in any
-- order. The first upload that fails ends the stream, which drops those in flight.
pub mod Bounded
use r2kit.Prelude.{ℕ, ◌<◌, List, [], ◌∷◌, ◌++◌, length}
use r2kit.Multipart.Plan.{PartNumber}

-- A part to upload: its number and its length.
abbrev pub Job : Type 0
Job = PartNumber × ℕ

pub record Pipeline : Type 0 where
  pub queued : List Job
  pub in_flight : List Job

abbrev pub initial : List Job → Pipeline
initial jobs = record { queued = jobs; in_flight = [] }

pub data Step (concurrency : ℕ) : Pipeline → Pipeline → Type 0 where
  start :
      (job : Job) (jobs flying : List Job)
      → length flying < concurrency
      → Step concurrency
          (record { queued = job ∷ jobs; in_flight = flying })
          (record { queued = jobs; in_flight = job ∷ flying })
  finish :
      (job : Job) (jobs before after : List Job)
      → Step concurrency
          (record { queued = jobs; in_flight = before ++ job ∷ after })
          (record { queued = jobs; in_flight = before ++ after })
  fail :
      (job : Job) (jobs before after : List Job)
      → Step concurrency
          (record { queued = jobs; in_flight = before ++ job ∷ after })
          (record { queued = []; in_flight = [] })

pub data Steps (concurrency : ℕ) : Pipeline → Pipeline → Type 0 where
  none : (s : Pipeline) → Steps concurrency s s
  then : {s t u : Pipeline} → Steps concurrency s t → Step concurrency t u → Steps concurrency s u
