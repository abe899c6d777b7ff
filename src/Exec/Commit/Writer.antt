-- ===== src/Exec/Commit/Writer.antt =====
-- internal/exec/commitwriter.go: the record of what reached the client. What the underlying
-- http.ResponseWriter answers to a call (the bytes taken, an error) is an argument of the call.
use darkrouter.Base.{
  ℕ, zero, suc, ◌+◌, String, Bool, true, false, ◌||◌, List, [], ◌∷◌, ◌++◌, Option, none, some, ◌==◌,
  if◌then◌else◌,
}

-- A call on the `writeHold`.
pub data HoldCall : Type 0 where
  begin_write end_write : HoldCall

-- `CommitWriter`. `calls` is what the `hold`, if there is one, has been told.
pub record CommitWriter : Type 0 where
  pub committed : Bool
  pub bytes : ℕ
  pub err : Option String
  pub has_hold : Bool
  pub calls : List HoldCall

unfoldable pub new_commit_writer : CommitWriter
new_commit_writer = record {
  committed = false;
  bytes = 0;
  err = none;
  has_hold = false;
  calls = [];
}

unfoldable pub commit : CommitWriter → CommitWriter
commit c = record c { committed = true }

unfoldable pub fail_opt : Option String → Option String → Option String
fail_opt (some e) err = some e
fail_opt none err = err

unfoldable pub fail : CommitWriter → Option String → CommitWriter
unfolding fail_opt
fail c err = record c { err = fail_opt c.err err }

unfoldable pub told : CommitWriter → HoldCall → CommitWriter
told c call = if c.has_hold then record c { calls = c.calls ++ (call ∷ []) } else c

unfoldable pub begin : CommitWriter → CommitWriter
unfolding told
begin c = told c begin_write

unfoldable pub end : CommitWriter → CommitWriter
unfolding told
end c = told c end_write

unfoldable pub write_header : CommitWriter → CommitWriter
unfolding commit begin end
write_header c = end (begin (commit c))

-- `Write` of `len` bytes, of which the client's writer takes `n`.
unfoldable pub write : CommitWriter → ℕ → ℕ → Option String → CommitWriter
unfolding commit begin end fail
write c len n err =
    let w = begin (commit c) in
    if len == 0 then c else end (fail (record w { bytes = w.bytes + n }) err)

unfoldable pub flush : CommitWriter → Option String → CommitWriter
unfolding commit begin end fail
flush c err = end (fail (begin (commit c)) err)

-- What a surface does with the writer.
pub data Call : Type 0 where
  a_header : Call
  a_write : ℕ → ℕ → Option String → Call
  a_flush : Option String → Call

unfoldable pub apply : CommitWriter → Call → CommitWriter
apply c a_header = write_header c
apply c (a_write len n err) = write c len n err
apply c (a_flush err) = flush c err

unfoldable pub apply_all : CommitWriter → List Call → CommitWriter
apply_all c [] = c
apply_all c (x ∷ xs) = apply_all (apply c x) xs

-- Whether a call sends anything, which an empty write does not.
abbrev pub sends : Call → Bool
sends a_header = true
sends (a_write zero n err) = false
sends (a_write (suc len) n err) = true
sends (a_flush err) = true

abbrev pub any_sends : List Call → Bool
any_sends [] = false
any_sends (x ∷ xs) = sends x || any_sends xs

abbrev pub taken : List Call → ℕ
taken [] = 0
taken (a_write (suc len) n err ∷ xs) = n + taken xs
taken (x ∷ xs) = taken xs

abbrev pub first_error : List Call → Option String
first_error [] = none
first_error (a_write (suc len) n (some e) ∷ xs) = some e
first_error (a_flush (some e) ∷ xs) = some e
first_error (x ∷ xs) = first_error xs
