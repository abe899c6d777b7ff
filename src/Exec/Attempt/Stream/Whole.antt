-- ===== src/Exec/Attempt/Stream/Whole.antt =====
-- What the dialect's writer is handed of a stream, while the client takes everything.
use darkrouter.Base.{
  ℕ, true, false, List, [], ◌∷◌, ◌++◌, Option, none, some, ◌≡◌, refl, sym, ap, ◌∙◌, subst, arith,
  ◌⊎◌, inl, inr, option_holds, cases_hold, append_assoc, append-nil, map,
}
use darkrouter.Exec.Attempt.{AttemptCtx}
use darkrouter.Exec.Attempt.Failures.{Contexts}
use darkrouter.Exec.Attempt.Reports.{Answer}
use darkrouter.Exec.Attempt.Stream.{
  Pulled, event, failed, Client, Drained, lost, held, used, drain, hand_rest, hand_committed,
  hand_held, after_drain, attempt_stream,
}
use darkrouter.Exec.Commit.Buffer.{Buffer, new_buffer, is_content_bearing, add}
use darkrouter.Ir.{StreamEvent}

-- Everything up to the first failure, which is the last thing that is handed over.
unfoldable pub up_to_failure : List Pulled → List Pulled
up_to_failure [] = []
up_to_failure (event ev ∷ rest) = event ev ∷ up_to_failure rest
up_to_failure (failed ctx e ∷ rest) = failed ctx e ∷ []

abbrev pub Takes : Client → Type 0
Takes client =
    ((items : List Pulled) → client.wants items ≡ true)
    × ((items : List Pulled) → client.alive items ≡ true)

abbrev committed_item : Option StreamEvent → List Pulled
committed_item none = []
committed_item (some ev) = event ev ∷ []

add_keeps : (b b' : Buffer) (ev : StreamEvent) → add b ev ≡ some b' → b'.evs ≡ b.evs ++ (ev ∷ [])
unfolding add
add_keeps b b' ev h = ground (arith, h)

hand_rest_all :
    (client : Client) (ac : AttemptCtx) (items rest : List Pulled)
    → Takes client
    → (hand_rest client ac items rest).items ≡ items ++ up_to_failure rest
unfolding hand_rest up_to_failure
hand_rest_all client ac items [] h = sym (append-nil items)
hand_rest_all client ac items (failed ctx e ∷ rest) h = ground (arith, h.1 items)
hand_rest_all client ac items (event ev ∷ rest) h =
    let more = items ++ (event ev ∷ []) in
    let ih = hand_rest_all client (used ac ev) more rest h in
    ground (arith, h.0 more, h.1 items, ih, append_assoc items (event ev ∷ []) (up_to_failure rest))

hand_committed_all :
    (client : Client) (ac : AttemptCtx) (items : List Pulled) (c : Option StreamEvent)
    (rest : List Pulled)
    → Takes client
    → (hand_committed client ac items c rest).items
      ≡ items ++ (committed_item c ++ up_to_failure rest)
unfolding hand_committed
hand_committed_all client ac items none rest h = hand_rest_all client ac items rest h
hand_committed_all client ac items (some ev) rest h =
    let more = items ++ (event ev ∷ []) in
    ground (
      arith,
      h.0 more,
      hand_rest_all client ac more rest h,
      append_assoc items (event ev ∷ []) (up_to_failure rest),
    )

hand_held_all :
    (client : Client) (ac : AttemptCtx) (items : List Pulled) (evs : List StreamEvent)
    (c : Option StreamEvent) (rest : List Pulled)
    → Takes client
    → (hand_held client ac items evs c rest).items
      ≡ items ++ (map event evs ++ (committed_item c ++ up_to_failure rest))
unfolding hand_held
hand_held_all client ac items [] c rest h = hand_committed_all client ac items c rest h
hand_held_all client ac items (ev ∷ evs) c rest h =
    let more = items ++ (event ev ∷ []) in
    let tail = map event evs ++ (committed_item c ++ up_to_failure rest) in
    ground (
      arith,
      h.0 more,
      hand_held_all client ac more evs c rest h,
      append_assoc items (event ev ∷ []) tail,
    )

-- The events of a drained stream are those that were pulled.
abbrev Accounts : List StreamEvent → List Pulled → Drained → Type 0
Accounts evs pulls (lost t ctx e) = Unit
Accounts evs pulls (held t more c rest) =
    map event more ++ (committed_item c ++ up_to_failure rest)
    ≡ map event evs ++ up_to_failure pulls

map_event-append :
    (evs : List StreamEvent) (ev : StreamEvent) (pulls : List Pulled)
    → map event (evs ++ (ev ∷ [])) ++ pulls ≡ map event evs ++ (event ev ∷ pulls)
map_event-append [] ev pulls = refl
map_event-append (x ∷ evs) ev pulls = ap (λ l. event x ∷ l) (map_event-append evs ev pulls)

Accounts-shift :
    (evs : List StreamEvent) (ev : StreamEvent) (rest : List Pulled) (d : Drained)
    → Accounts (evs ++ (ev ∷ [])) rest d
    → Accounts evs (event ev ∷ rest) d
unfolding up_to_failure
Accounts-shift evs ev rest (lost t ctx e) h = tt
Accounts-shift evs ev rest (held t more c left) h = h ∙ map_event-append evs ev (up_to_failure rest)

drain-Accounts :
    (ctx : Contexts) (buf : Buffer) (ac : AttemptCtx) (pulls : List Pulled)
    → Accounts buf.evs pulls (drain ctx buf ac pulls)
unfolding drain up_to_failure
drain-Accounts ctx buf ac [] = refl
drain-Accounts ctx buf ac (failed c e ∷ rest) = tt
drain-Accounts ctx buf ac (event ev ∷ rest) =
    cases_hold (Accounts buf.evs (event ev ∷ rest)) (is_content_bearing ev) _ _ (λ t. refl)
      (λ t.
        option_holds (Accounts buf.evs (event ev ∷ rest)) (add buf ev) _ _ (λ n. tt)
          (λ b e. Accounts-shift buf.evs ev rest (drain ctx b (used ac ev) rest) (
            subst (λ evs. Accounts evs rest (drain ctx b (used ac ev) rest)) (add_keeps buf b ev e)
              (drain-Accounts ctx b (used ac ev) rest))))

abbrev AllOrNothing : List Pulled → Answer × List Pulled → Type 0
AllOrNothing pulls r = ((r.1 ≡ []) × (r.0.committed ≡ false)) ⊎ (r.1 ≡ up_to_failure pulls)

after_drain-AllOrNothing :
    (client : Client) (pulls : List Pulled) (d : Drained)
    → Takes client
    → Accounts [] pulls d
    → AllOrNothing pulls (after_drain client d)
unfolding after_drain
after_drain-AllOrNothing client pulls (lost ac ctx e) h k = inl (refl, refl)
after_drain-AllOrNothing client pulls (held ac evs c rest) h k =
    inr (hand_held_all client ac [] evs c rest h ∙ k)

-- A client that takes everything is handed either the whole stream, every event in the order in
-- which the upstream sent it and a failure at the end if there is one, or nothing at all: holding
-- events back until one commits neither loses nor reorders nor repeats any. Where nothing is
-- handed over, nothing is committed either, so that another candidate may answer.
pub attempt_stream_whole :
    (client : Client) (max_precommit_bytes : ℕ) (full_ctx : Contexts) (pulls : List Pulled)
    (ac : AttemptCtx)
    → Takes client
    → (((attempt_stream client max_precommit_bytes full_ctx pulls ac).1 ≡ [])
        × ((attempt_stream client max_precommit_bytes full_ctx pulls ac).0.committed ≡ false))
      ⊎ ((attempt_stream client max_precommit_bytes full_ctx pulls ac).1 ≡ up_to_failure pulls)
unfolding attempt_stream new_buffer
attempt_stream_whole client max_precommit_bytes full_ctx pulls ac h =
    let buf = new_buffer max_precommit_bytes in
    after_drain-AllOrNothing client pulls (drain full_ctx buf ac pulls) h
      (drain-Accounts full_ctx buf ac pulls)
