-- ===== src/Exec/Forward.antt =====
-- internal/exec/forward.go, `forwardStream`: the provider's bytes piped to the client event by
-- event. Response headers and warnings are left out. `recognize` is `parseEvent` followed by the
-- adapter's `RecognizeEvent`, `typed` is `forwardedStreamError`, and `error_event` what
-- `WriteStreamError` writes.
pub mod Carried
pub mod Exact
pub mod Whole
mod Examples
use darkrouter.Base.{
  ℕ, ◌+◌, String, Bool, true, false, not, ◌&&◌, ◌||◌, List, [], ◌∷◌, ◌++◌, Option, none, some,
  length, ltb, str_eq, if◌then◌else◌,
}
use darkrouter.Adapter.{Outcome, success}
use darkrouter.Exec.Attempt.{AttemptCtx, apply_usage}
use darkrouter.Exec.Attempt.Failures.{Failure, Contexts, failed_after_commit}
use darkrouter.Exec.Attempt.Reports.{Answer}
use darkrouter.Exec.Attempt.Stream.{buffer_full, lost_answer}
use darkrouter.Exec.RawStream.{EventSplitter, push, flush, merge_usage}
use darkrouter.Ir.{Usage, no_usage, Error}
use darkrouter.Sse.Lines.{Bytes}

-- `adapter.RawEvent`
pub record RawEvent : Type 0 where
  pub content : Bool
  pub usage_only : Bool
  pub terminal : Bool
  pub err_payload : String
  pub usage : Option Usage

-- What the function is given, and the client's writer by what it has been sent.
pub record Setting : Type 0 where
  pub recognize : Bytes → RawEvent
  pub typed : Bytes → Failure
  pub strip : Bool
  pub max_precommit_bytes : ℕ
  pub ctx : Contexts
  pub alive : List Bytes → Bool
  pub write_error : String
  pub error_event : Bytes

-- The variables of the function, and what was written to the client.
pub record Forward : Type 0 where
  pub ac : AttemptCtx
  pub pending : List Bytes
  pub pending_bytes : ℕ
  pub committed : Bool
  pub usage : Usage
  pub failed : Option Failure
  pub terminated : Bool
  pub out : List Bytes

pub data Stepped : Type 0 where
  on : Forward → Stepped
  off : Answer → List Bytes → Stepped

-- How the body ends.
pub data Ending : Type 0 where
  eof : Ending
  broken : Contexts → Failure → Ending

abbrev pub event_too_long : Failure
event_too_long = record {
  message = "exec: forwarded event exceeds the line cap";
  typed = none;
  client_write = false;
}

unfoldable pub commit : Forward → Forward
commit s = record s { committed = true; out = s.out ++ s.pending; pending = []; pending_bytes = 0 }

abbrev pub send : Forward → Bytes → Forward
send s raw = record s { out = s.out ++ (raw ∷ []) }

abbrev pub or_first : Option Failure → Failure → Failure
or_first none e = e
or_first (some f) e = f

unfoldable pub take_usage : Forward → RawEvent → Forward
unfolding merge_usage apply_usage
take_usage s re = elim re.usage [
  | none ↦ s
  | some u ↦
      let merged = merge_usage s.usage (some u) in
      record s { usage = merged; ac = record s.ac { rec = apply_usage s.ac.rec (some merged) } }
]

module _ (g : Setting) where
  -- An attempt given up before commit, `reclassifyStream`.
  unfoldable pub abandon : Forward → Contexts → Failure → Stepped
  unfolding lost_answer
  abandon s ctx e = off (lost_answer s.ac ctx e) s.out

  unfoldable pub held_back : Forward → Bytes → RawEvent → Stepped
  unfolding abandon
  held_back s raw re =
      let n = s.pending_bytes + length raw in
      let kept = record s { pending_bytes = n; pending = s.pending ++ (raw ∷ []) } in
      if ltb 0 g.max_precommit_bytes && ltb g.max_precommit_bytes n
      then abandon s g.ctx buffer_full
      else if g.strip && re.usage_only
      then on (record s { pending_bytes = n })
      else on kept

  unfoldable pub step_before : Forward → Bytes → RawEvent → Stepped
  unfolding abandon held_back commit
  step_before s raw re =
      if not (str_eq re.err_payload "")
      then abandon s g.ctx (g.typed raw)
      else if re.content
      then on (send (commit s) raw)
      else held_back s raw re

  unfoldable pub step_after : Forward → Bytes → RawEvent → Stepped
  step_after s raw re =
      let noted = record s {
        failed =
            if str_eq re.err_payload "" then s.failed else some (or_first s.failed (g.typed raw));
      } in
      if g.strip && re.usage_only
      then on noted
      else on (record noted { out = s.out ++ (raw ∷ []); terminated = s.terminated || re.terminal })

  unfoldable pub step : Forward → Bytes → Stepped
  unfolding take_usage step_before step_after
  step s raw =
      let re = g.recognize raw in
      let t = take_usage s re in if t.committed then step_after t raw re else step_before t raw re

  -- A response that ends with the failure `e`.
  unfoldable pub fail_late : Forward → Contexts → Failure → Answer × List Bytes
  unfolding failed_after_commit
  fail_late s ctx e =
      let (o, ie) = failed_after_commit ctx e in
      (
        record {
          ctx = s.ac;
          outcome = o;
          err = some ie;
          committed = s.committed;
          write_failed = not (g.alive s.out);
        },
        s.out,
      )

  -- The failure of a write.
  abbrev pub unwritten_error : Failure
  unwritten_error = record { message = g.write_error; typed = none; client_write = true }

  -- `clientGone`
  unfoldable pub client_left : Forward → Answer × List Bytes
  unfolding fail_late
  client_left s = fail_late s g.ctx (or_first s.failed unwritten_error)

  abbrev pub served : Forward → Answer × List Bytes
  served s = (
    record {
      ctx = s.ac;
      outcome = success;
      err = none;
      committed = s.committed;
      write_failed = false;
    },
    s.out,
  )

  unfoldable pub steps : Forward → List Bytes → Stepped
  unfolding step client_left
  steps s [] = on s
  steps s (raw ∷ raws) = elim (step s raw) [
    | off a out ↦ off a out
    | on t ↦ elim (g.alive t.out) [
      | true ↦ steps t raws
      | false ↦ off (client_left t).0 (client_left t).1
    ]
  ]

  abbrev pub send_tail : Forward → Bytes → Forward
  send_tail s [] = s
  send_tail s (c ∷ cs) = send s (c ∷ cs)

  -- What follows the sequence of reads at the end of the body.
  unfoldable pub close : Forward → Answer × List Bytes
  unfolding commit client_left fail_late
  close s =
      let t = if s.committed then s else commit s in
      if not (g.alive t.out)
      then client_left t
      else elim t.failed [ none ↦ served t | some e ↦ fail_late t g.ctx e ]

  unfoldable pub at_eof : Forward → Bytes → Answer × List Bytes
  unfolding step close
  at_eof s [] = close s
  at_eof s (c ∷ cs) = elim (step s (c ∷ cs)) [ off a out ↦ (a, out) | on t ↦ close t ]

  unfoldable pub after_break : Forward → Contexts → Failure → Answer × List Bytes
  unfolding client_left fail_late
  after_break s ctx e = elim s.failed [
    | some f ↦ fail_late s ctx f
    | none ↦
        if s.terminated
        then (if g.alive s.out then served s else client_left s)
        else fail_late (send s g.error_event) ctx e
  ]

  unfoldable pub at_end : Ending → Forward → Bytes → Answer × List Bytes
  unfolding at_eof after_break abandon lost_answer
  at_end eof s tail = at_eof s tail
  at_end (broken ctx e) s tail =
      if s.committed then after_break (send_tail s tail) ctx e else (lost_answer s.ac ctx e, s.out)

  -- The rest is copied as it comes, until the client stops taking it.
  unfoldable pub copied : Ending → Forward → List Bytes → Answer × List Bytes
  unfolding client_left fail_late
  copied eof s [] = if g.alive s.out then served s else client_left s
  copied (broken ctx e) s [] = fail_late s ctx e
  copied ending s (chunk ∷ rest) =
      let t = send s chunk in
      let more = copied ending t rest in
      if g.alive t.out then more else fail_late t g.ctx unwritten_error

  -- The reads, chunk by chunk.
  unfoldable pub feed : Ending → Forward → EventSplitter → List Bytes → Answer × List Bytes
  unfolding push flush steps at_end copied lost_answer
  feed ending s sp [] = at_end ending s (flush sp).1
  feed ending s sp (chunk ∷ chunks) =
      let (sp', evs, long) = push sp chunk in
      elim (steps s evs) [
        | off a out ↦ (a, out)
        | on t ↦ elim long [
          | false ↦ feed ending t sp' chunks
          | true ↦
              if t.committed
              then copied ending (send_tail t (flush sp').1) chunks
              else (lost_answer t.ac g.ctx event_too_long, t.out)
        ]
      ]

  unfoldable pub forward_stream : ℕ → Ending → List Bytes → AttemptCtx → Answer × List Bytes
  unfolding feed
  forward_stream max_line ending chunks ac =
      feed ending
        (record {
          ac = ac;
          pending = [];
          pending_bytes = 0;
          committed = false;
          usage = no_usage;
          failed = none;
          terminated = false;
          out = [];
        })
        (record { buf = []; max = max_line }) chunks
