-- ===== src/Edge/AnthropicStream/Blocks.antt =====
-- Each operation on the blocks keeps what the writer and its client agree on.
use darkrouter.Base.{
  ℕ, ◌+◌, true, List, [], ◌∷◌, Option, none, some, lookup, insert, erase, nat_eq, ltb, stable_sort,
  Distinct, insert-Distinct, erase-Distinct, ◌≡◌, inl, inr, refl, sym, ap, subst, ◌∙◌, arith,
  if_holds,
}
use darkrouter.Edge.AnthropicStream.{
  start_frame, open_frame, change_frame, stop_frame, Sink, block_start_body, delta_body, message_id,
  Stream, and_then, wires,
}
use darkrouter.Edge.AnthropicStream.Client.{awaiting, streaming}
use darkrouter.Edge.AnthropicStream.Wires.{
  Ascends, Ascends-append, Ascends-remove, remove_first, stable_sort_ascending, wires-insert,
  contains-wires, wires-erase,
}
use darkrouter.Edge.AnthropicStream.Writing.{
  send, start, open_new, open_block, stops, close_all, send_change, write_delta, write_stop,
}
use darkrouter.Ir.{BlockType, text, thinking, redacted_thinking, tool_use, other_block, Delta}
use darkrouter.Edge.AnthropicStream.Posts.{
  reading, Live, Good, Post, Post-and_then, Post-weaken, option_Post, Live-Alive, Fresh-Alive,
  Good-Alive, sent, send-Post, reading_next,
}

module _ (fails : Sink) where
  pub start-Live :
      (s : Stream) → Good s → Post (λ t. Live t × (t.wire_of ≡ s.wire_of)) (start fails s)
  unfolding start wires
  start-Live s (inl h) =
      if_holds (Post (λ t. Live t × (t.wire_of ≡ s.wire_of))) s.started (s, true) _ (λ _. (h, refl))
        (λ e. absurd (cc (h.on, e)))
  start-Live s (inr h) =
      let f = start_frame (message_id s.id) s.model s.usage in
      let on = record s { started = true } in
      let none_open : wires s.wire_of ≡ [] = ap wires h.no_block in
      let live : Live (sent on f) = record {
        reads = cc (reading_next on f awaiting h.reads, none_open, h.no_wire);
        ascends = subst (λ ws. Ascends ws s.next_wire) (sym none_open) tt;
        distinct = subst Distinct (sym h.no_block) tt;
        on = refl;
      } in
      let P = λ (t : Stream). Live t × (t.wire_of ≡ s.wire_of) in
      if_holds (Post P) s.started (s, true) (send fails on f) (λ e. absurd (cc (h.off, e)))
        (λ _. send-Post fails P on f (Fresh-Alive s h) (live, refl))

  open_new-Live :
      (s : Stream) (ir : ℕ) (d : Option Delta)
      → lookup ir s.wire_of ≡ none
      → Live s
      → Post Live (open_new fails s ir d)
  unfolding open_new
  open_new-Live s ir d n h =
      let w = s.next_wire in
      let f = open_frame w (block_start_body d) in
      let t = record s { next_wire = w + 1; wire_of = insert ir w s.wire_of } in
      let opened = wires-insert ir w s.wire_of n in
      let live : Live (sent t f) = record {
        reads = ground (arith, reading_next t f (streaming (wires s.wire_of) w) h.reads, opened);
        ascends =
            subst (λ ws. Ascends ws (w + 1)) (sym opened)
              (Ascends-append (wires s.wire_of) w h.ascends);
        distinct = insert-Distinct ir w s.wire_of h.distinct;
        on = h.on;
      } in
      send-Post fails Live t f (Live-Alive s h) live

  pub open_block-Good :
      (s : Stream) (ir : ℕ) (d : Option Delta) → Good s → Post Good (open_block fails s ir d)
  unfolding open_block
  open_block-Good s ir d g =
      option_Post Good (lookup ir s.wire_of) (and_then (start fails s) (λ t. open_new fails t ir d))
        (λ w. (s, true))
        (λ e.
          Post-and_then (λ t. Live t × (t.wire_of ≡ s.wire_of)) Good (start fails s)
            (λ t. open_new fails t ir d) (start-Live s g)
            (λ t h.
              Post-weaken Live Good (open_new fails t ir d) (λ u l. inl l)
                (open_new-Live t ir d (ap (lookup ir) h.1 ∙ e) h.0)))
        (λ w e. g)

  abbrev Stopped : ℕ → Stream → Stream → Type 0
  Stopped n s t =
      (reading t ≡ streaming [] n) × (t.next_wire ≡ s.next_wire) × (t.started ≡ s.started)

  stops-Stopped :
      (ws : List ℕ) (s : Stream) (n : ℕ)
      → reading s ≡ streaming ws n
      → Ascends ws n
      → Post (Stopped n s) (stops fails s ws)
  unfolding stops
  stops-Stopped [] s n r a = (r, refl, refl)
  stops-Stopped (w ∷ ws) s n r a =
      let f = stop_frame w in
      let r2 : reading (sent s f) ≡ streaming ws n =
        ground (arith, reading_next s f (streaming (w ∷ ws) n) r, remove_first ws n w a) in
      Post-and_then (λ t. t ≡ sent s f) (Stopped n s) (send fails s f) (λ t. stops fails t ws)
        (send-Post fails (λ t. t ≡ sent s f) s f (λ e. absurd (cc (r, e))) refl)
        (λ t e.
          subst (λ u. Post (Stopped n s) (stops fails u ws)) (sym e)
            (stops-Stopped ws (sent s f) n r2 a.2))

  pub close_all-Live :
      (s : Stream) → Live s → Post (λ t. Live t × (t.wire_of ≡ [])) (close_all fails s)
  unfolding close_all wires
  close_all-Live s h =
      let ws = wires s.wire_of in
      let sorted = stable_sort_ascending ws s.next_wire h.ascends in
      Post-and_then (Stopped s.next_wire s) (λ t. Live t × (t.wire_of ≡ []))
        (stops fails s (stable_sort ltb ws)) (λ t. (record t { wire_of = [] }, true))
        (subst (λ vs. Post (Stopped s.next_wire s) (stops fails s vs)) (sym sorted)
          (stops-Stopped ws s s.next_wire h.reads h.ascends))
        (λ t r.
          (record { reads = cc (r.0, r.1); ascends = tt; distinct = tt; on = r.2 ∙ h.on }, refl))

  -- A block is open only in a message that has started.
  Good-Live : (s : Stream) (ir w : ℕ) → lookup ir s.wire_of ≡ some w → Good s → Live s
  unfolding lookup
  Good-Live s ir w e (inl h) = h
  Good-Live s ir w e (inr h) = absurd (cc (ap (lookup ir) h.no_block, e))

  change-Good :
      (s : Stream) (ir : ℕ) (d : Delta)
      → Good s
      → Post Good (elim (lookup ir s.wire_of) [
        | none ↦ (s, true)
        | some w ↦ send fails s (change_frame w (delta_body d))
      ])
  change-Good s ir d g =
      option_Post Good (lookup ir s.wire_of) (s, true)
        (λ w. send fails s (change_frame w (delta_body d))) (λ e. g)
        (λ w e.
          let f = change_frame w (delta_body d) in
          let h = Good-Live s ir w e g in
          let live : Live (sent s f) = record {
            reads = ground (
              arith,
              reading_next s f (streaming (wires s.wire_of) s.next_wire) h.reads,
              contains-wires ir w s.wire_of e,
            );
            ascends = h.ascends;
            distinct = h.distinct;
            on = h.on;
          } in
          send-Post fails Good s f (Good-Alive s g) (inl live))

  send_change-Good :
      (s : Stream) (ir : ℕ) (d : Delta) (b : BlockType)
      → Good s
      → Post Good (send_change fails s ir d b)
  unfolding send_change
  send_change-Good s ir d redacted_thinking g = g
  send_change-Good s ir d text g = change-Good s ir d g
  send_change-Good s ir d thinking g = change-Good s ir d g
  send_change-Good s ir d tool_use g = change-Good s ir d g
  send_change-Good s ir d (other_block _) g = change-Good s ir d g

  pub write_delta-Good :
      (s : Stream) (ir : ℕ) (d : Option Delta) → Good s → Post Good (write_delta fails s ir d)
  unfolding write_delta
  write_delta-Good s ir none g = g
  write_delta-Good s ir (some d) g =
      Post-and_then Good Good (open_block fails s ir (some d))
        (λ t. send_change fails t ir d d.block) (open_block-Good s ir (some d) g)
        (λ t h. send_change-Good t ir d d.block h)

  pub write_stop-Good : (s : Stream) (ir : ℕ) → Good s → Post Good (write_stop fails s ir)
  unfolding write_stop
  write_stop-Good s ir g =
      option_Post Good (lookup ir s.wire_of) (s, true)
        (λ w. send fails (record s { wire_of = erase ir s.wire_of }) (stop_frame w)) (λ e. g)
        (λ w e.
          let f = stop_frame w in
          let t = record s { wire_of = erase ir s.wire_of } in
          let h = Good-Live s ir w e g in
          let left = wires-erase ir w s.next_wire s.wire_of e h.distinct h.ascends in
          let live : Live (sent t f) = record {
            reads = ground (
              arith,
              reading_next t f (streaming (wires s.wire_of) s.next_wire) h.reads,
              contains-wires ir w s.wire_of e,
              left,
            );
            ascends =
                subst (λ ws. Ascends ws s.next_wire) (sym left)
                  (Ascends-remove (wires s.wire_of) s.next_wire w h.ascends);
            distinct = erase-Distinct ir s.wire_of h.distinct;
            on = h.on;
          } in
          send-Post fails Good t f (Good-Alive s g) (inl live))
