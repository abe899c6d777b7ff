-- ===== src/Exec/Attempt/Stream.antt =====
-- internal/exec/exec.go, `attemptStream`: the events of the upstream held until one commits the
-- response, and then handed to the dialect's writer.
pub mod Whole
pub mod Surface
use darkrouter.Base.{
  ℕ, String, Bool, true, false, List, [], ◌∷◌, ◌++◌, Option, none, some, if◌then◌else◌,
}
use darkrouter.Adapter.{Outcome, success}
use darkrouter.Exec.Attempt.{AttemptCtx, apply_usage}
use darkrouter.Exec.Attempt.Failures.{Failure, Contexts, reclassify_stream, failed_after_commit}
use darkrouter.Exec.Attempt.Reports.{Answer}
use darkrouter.Exec.Commit.Buffer.{Buffer, new_buffer, is_content_bearing, add}
use darkrouter.Ir.{Error, StreamEvent}

-- What the parsed upstream yields; a failure with what the contexts say when it is read.
pub data Pulled : Type 0 where
  event : StreamEvent → Pulled
  failed : Contexts → Failure → Pulled

-- The dialect's `WriteStream` and the commit writer below it, by what has been handed over: whether
-- it takes more, whether `cw.Err()` is nil, and whether anything went out.
pub record Client : Type 0 where
  pub wants : List Pulled → Bool
  pub alive : List Pulled → Bool
  pub commits : List Pulled → Bool
  pub write_error : String
  pub write_ctx : Contexts

-- How the first phase ends: a failure before commit, or the events held, the one that commits,
-- and the events still to pull.
pub data Drained : Type 0 where
  lost : AttemptCtx → Contexts → Failure → Drained
  held : AttemptCtx → List StreamEvent → Option StreamEvent → List Pulled → Drained

abbrev pub buffer_full : Failure
buffer_full = record {
  message = "exec: pre-commit buffer exceeded";
  typed = none;
  client_write = false;
}

unfoldable pub used : AttemptCtx → StreamEvent → AttemptCtx
unfolding apply_usage
used ac ev = record ac { rec = apply_usage ac.rec ev.usage }

-- `full_ctx` is what the contexts say when the buffer is full.
unfoldable pub drain : Contexts → Buffer → AttemptCtx → List Pulled → Drained
unfolding used is_content_bearing add
drain full_ctx buf ac [] = held ac buf.evs none []
drain full_ctx buf ac (failed ctx e ∷ rest) = lost ac ctx e
drain full_ctx buf ac (event ev ∷ rest) = elim (is_content_bearing ev) [
  | true ↦ held (used ac ev) buf.evs (some ev) rest
  | false ↦ elim (add buf ev) [
    | none ↦ lost (used ac ev) full_ctx buffer_full
    | some b ↦ drain full_ctx b (used ac ev) rest
  ]
]

-- The second phase so far: the record, what was handed over, and the failure that ended it.
pub record Handed : Type 0 where
  pub ctx : AttemptCtx
  pub items : List Pulled
  pub failure : Option (Contexts × Failure)

abbrev pub stopped : AttemptCtx → List Pulled → Handed
stopped ac items = record { ctx = ac; items = items; failure = none }

unfoldable pub hand_rest : Client → AttemptCtx → List Pulled → List Pulled → Handed
unfolding used
hand_rest client ac items [] = stopped ac items
hand_rest client ac items (failed ctx e ∷ rest) =
    if client.alive items
    then record { ctx = ac; items = items ++ (failed ctx e ∷ []); failure = some (ctx, e) }
    else stopped ac items
hand_rest client ac items (event ev ∷ rest) =
    let more = items ++ (event ev ∷ []) in
    let on = hand_rest client (used ac ev) more rest in
    if client.alive items
    then (if client.wants more then on else stopped (used ac ev) more)
    else stopped ac items

unfoldable pub hand_committed :
    Client → AttemptCtx → List Pulled → Option StreamEvent → List Pulled → Handed
unfolding hand_rest
hand_committed client ac items none rest = hand_rest client ac items rest
hand_committed client ac items (some ev) rest =
    let more = items ++ (event ev ∷ []) in
    let on = hand_rest client ac more rest in if client.wants more then on else stopped ac more

unfoldable pub hand_held :
    Client → AttemptCtx → List Pulled → List StreamEvent → Option StreamEvent → List Pulled → Handed
unfolding hand_committed
hand_held client ac items [] committed rest = hand_committed client ac items committed rest
hand_held client ac items (ev ∷ evs) committed rest =
    let more = items ++ (event ev ∷ []) in
    let on = hand_held client ac more evs committed rest in
    if client.wants more then on else stopped ac more

abbrev pub written : Client → Failure
written client = record { message = client.write_error; typed = none; client_write = true }

unfoldable pub late_answer : Client → Handed → Contexts × Failure → Answer
unfolding failed_after_commit
late_answer client h (ctx, e) =
    let (o, ie) = failed_after_commit ctx e in
    record {
      ctx = h.ctx;
      outcome = o;
      err = some ie;
      committed = client.commits h.items;
      write_failed = if client.alive h.items then false else true;
    }

unfoldable pub finished : Client → Handed → Answer
finished client h = record {
  ctx = h.ctx;
  outcome = success;
  err = none;
  committed = client.commits h.items;
  write_failed = false;
}

unfoldable pub answer_of : Client → Handed → Answer
unfolding late_answer finished
answer_of client h = elim h.failure [
  | some f ↦ late_answer client h f
  | none ↦
      if client.alive h.items
      then finished client h
      else late_answer client h (client.write_ctx, written client)
]

unfoldable pub lost_answer : AttemptCtx → Contexts → Failure → Answer
unfolding reclassify_stream
lost_answer ac ctx e =
    let (t, o, ie) = reclassify_stream ac ctx e in
    record { ctx = t; outcome = o; err = some ie; committed = false; write_failed = false }

-- The second phase, or what is left of the first.
unfoldable pub after_drain : Client → Drained → Answer × List Pulled
unfolding hand_held answer_of lost_answer
after_drain client (lost ac ctx e) = (lost_answer ac ctx e, [])
after_drain client (held ac evs committed rest) =
    let h = hand_held client ac [] evs committed rest in (answer_of client h, h.items)

-- `attemptStream`: its answer, and what the dialect's writer was handed.
unfoldable pub attempt_stream :
    Client → ℕ → Contexts → List Pulled → AttemptCtx → Answer × List Pulled
unfolding drain after_drain
attempt_stream client max_precommit_bytes full_ctx pulls ac =
    after_drain client (drain full_ctx (new_buffer max_precommit_bytes) ac pulls)
