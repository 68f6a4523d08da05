-- ===== src/Managed/Buffers.antt =====
-- src/managed.rs: the buffers of `run_stream`. A task reads the parts one after the other, each into a
-- buffer of its own, and hands them to a channel of `channel_size` places; `buffer_unordered` takes
-- them from there and keeps at most `concurrency` uploads in flight, which end in any order. A failed
-- read or upload ends the stream and is not a step.
pub mod Exceeded
pub mod Filled
use r2kit.Prelude.{
  ℕ, ◌+◌, ◌-◌, ◌/◌, ◌<◌, max, Option, none, some, List, [], ◌∷◌, ◌++◌, length, sum_by,
}
use r2kit.Managed.Pipeline.{Job}

-- The places of the channel between the reader and the uploads.
unfoldable pub channel_size : ℕ → ℕ → ℕ → ℕ
channel_size max_buffered_bytes part_size concurrency =
    max (max_buffered_bytes / part_size - concurrency) 1

pub record Buffers : Type 0 where
  pub unread : List Job
  pub reading : Option Job
  pub channel : List Job
  pub in_flight : List Job

abbrev pub unstarted : List Job → Buffers
unstarted jobs = record { unread = jobs; reading = none; channel = []; in_flight = [] }

pub data Move (concurrency places : ℕ) : Buffers → Buffers → Type 0 where
  read :
      (job : Job) (jobs waiting flying : List Job)
      → Move concurrency places
          (record { unread = job ∷ jobs; reading = none; channel = waiting; in_flight = flying })
          (record { unread = jobs; reading = some job; channel = waiting; in_flight = flying })
  send :
      (job : Job) (jobs waiting flying : List Job)
      → length waiting < places
      → Move concurrency places
          (record { unread = jobs; reading = some job; channel = waiting; in_flight = flying })
          (record {
            unread = jobs;
            reading = none;
            channel = waiting ++ job ∷ [];
            in_flight = flying;
          })
  receive :
      (job : Job) (jobs : List Job) (held : Option Job) (waiting flying : List Job)
      → length flying < concurrency
      → Move concurrency places
          (record { unread = jobs; reading = held; channel = job ∷ waiting; in_flight = flying })
          (record { unread = jobs; reading = held; channel = waiting; in_flight = job ∷ flying })
  finish :
      (job : Job) (jobs : List Job) (held : Option Job) (waiting before after : List Job)
      → Move concurrency places
          (record {
            unread = jobs;
            reading = held;
            channel = waiting;
            in_flight = before ++ job ∷ after;
          })
          (record { unread = jobs; reading = held; channel = waiting; in_flight = before ++ after })

pub data Moves (concurrency places : ℕ) : Buffers → Buffers → Type 0 where
  still : (s : Buffers) → Moves concurrency places s s
  then :
      {s t u : Buffers}
      → Moves concurrency places s t
      → Move concurrency places t u
      → Moves concurrency places s u

-- The bytes of the part that the reader holds.
abbrev pub held_bytes : Option Job → ℕ
held_bytes none = 0
held_bytes (some job) = job.1

-- The bytes of all the part buffers in memory.
abbrev pub buffered_bytes : Buffers → ℕ
buffered_bytes s =
    held_bytes s.reading + sum_by (λ j. j.1) s.channel + sum_by (λ j. j.1) s.in_flight
