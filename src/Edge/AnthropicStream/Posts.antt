-- ===== src/Edge/AnthropicStream/Posts.antt =====
-- What a step of the writer keeps: the client and the writer have the same blocks open.
use darkrouter.Base.{
  ℕ, true, false, [], ◌∷◌, ◌++◌, Option, none, some, nat_eq, Distinct, ◌≡◌, ◌≢◌, ◌⊎◌, inl, inr,
  refl, ap, ◌∙◌, if_holds,
}
use darkrouter.Edge.AnthropicStream.{Frame, Sink, Stream, Sent, and_then, wires}
use darkrouter.Edge.AnthropicStream.Client.{
  Client, awaiting, streaming, broken, receive, receive_all, receive_all-append,
}
use darkrouter.Edge.AnthropicStream.Wires.{Ascends}
use darkrouter.Edge.AnthropicStream.Writing.{send}

abbrev pub reading : Stream → Client
reading s = receive_all awaiting s.out

-- The message has started, and the client sees the blocks open that the writer has open.
pub record Live (s : Stream) : Type 0 where
  pub reads : reading s ≡ streaming (wires s.wire_of) s.next_wire
  pub ascends : Ascends (wires s.wire_of) s.next_wire
  pub distinct : Distinct s.wire_of
  pub on : s.started ≡ true

-- Nothing has been sent.
pub record Fresh (s : Stream) : Type 0 where
  pub reads : reading s ≡ awaiting
  pub no_block : s.wire_of ≡ []
  pub no_wire : s.next_wire ≡ 0
  pub off : s.started ≡ false

abbrev pub Good : Stream → Type 0
Good s = Live s ⊎ Fresh s

abbrev pub Alive : Stream → Type 0
Alive s = reading s ≢ broken

-- `P` holds where all sends succeeded; where one failed, the stream so far is no broken one.
abbrev pub Post : (Stream → Type 0) → Sent → Type 0
Post P (s, true) = P s
Post P (s, false) = Alive s

pub Post-and_then :
    (P Q : Stream → Type 0) (r : Sent) (f : Stream → Sent)
    → Post P r
    → ((s : Stream) → P s → Post Q (f s))
    → Post Q (and_then r f)
unfolding and_then
Post-and_then P Q (s, true) f h k = k s h
Post-and_then P Q (s, false) f h k = h

pub Post-weaken :
    (P Q : Stream → Type 0) (r : Sent) → ((s : Stream) → P s → Q s) → Post P r → Post Q r
Post-weaken P Q (s, true) f h = f s h
Post-weaken P Q (s, false) f h = h

pub option_Post :
    (P : Stream → Type 0) (o : Option ℕ) (r : Sent) (f : ℕ → Sent)
    → (o ≡ none → Post P r)
    → ((w : ℕ) → o ≡ some w → Post P (f w))
    → Post P (elim o [ none ↦ r | some w ↦ f w ])
option_Post P none r f h k = h refl
option_Post P (some w) r f h k = k w refl

pub Live-Alive : (s : Stream) → Live s → Alive s
Live-Alive s h e = absurd (cc (h.reads, e))

pub Fresh-Alive : (s : Stream) → Fresh s → Alive s
Fresh-Alive s h e = absurd (cc (h.reads, e))

pub Good-Alive : (s : Stream) → Good s → Alive s
Good-Alive s (inl h) = Live-Alive s h
Good-Alive s (inr h) = Fresh-Alive s h

abbrev pub sent : Stream → Frame → Stream
sent s f = record s { out = s.out ++ (f ∷ []) }

-- How the client reads one more frame.
pub reading_next :
    (s : Stream) (f : Frame) (c : Client) → reading s ≡ c → reading (sent s f) ≡ receive c f
reading_next s f c h = receive_all-append awaiting s.out f ∙ ap (λ d. receive d f) h

module _ (fails : Sink) where
  pub send-Post :
      (P : Stream → Type 0) (s : Stream) (f : Frame)
      → Alive s
      → P (sent s f)
      → Post P (send fails s f)
  unfolding send
  send-Post P s f a h =
      if_holds (Post P) (fails s.out f) (s, false) (sent s f, true) (λ _. a) (λ _. h)
