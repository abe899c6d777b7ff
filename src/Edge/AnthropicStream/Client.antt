-- ===== src/Edge/AnthropicStream/Client.antt =====
-- A client of Anthropic's event stream, as an automaton over the frames: independent of the writer.
use darkrouter.Base.{ℕ, ◌+◌, Bool, false, ◌||◌, List, [], ◌∷◌, ◌++◌, ◌==◌, if◌then◌else◌, ◌≡◌, refl}
use darkrouter.Edge.AnthropicStream.{
  Frame, start_frame, ping_frame, open_frame, change_frame, stop_frame, error_frame, finish_frame,
  end_frame,
}

-- `streaming open next` has the open blocks and the index of the block to come.
pub data Client : Type 0 where
  awaiting : Client
  streaming : List ℕ → ℕ → Client
  closing : Client
  complete : Client
  errored : Client
  broken : Client

abbrev pub contains : ℕ → List ℕ → Bool
contains w [] = false
contains w (v ∷ vs) = v == w || contains w vs

abbrev pub remove : ℕ → List ℕ → List ℕ
remove w [] = []
remove w (v ∷ vs) = let rest = remove w vs in if v == w then rest else v ∷ rest

-- The message may be finished only with no block open.
abbrev pub finished : List ℕ → Client
finished [] = closing
finished (v ∷ vs) = broken

abbrev pub receive_streaming : List ℕ → ℕ → Frame → Client
receive_streaming open_ next (start_frame _ _ _) = broken
receive_streaming open_ next ping_frame = streaming open_ next
receive_streaming open_ next (open_frame w _) =
    if w == next then streaming (open_ ++ (w ∷ [])) (next + 1) else broken
receive_streaming open_ next (change_frame w _) =
    if contains w open_ then streaming open_ next else broken
receive_streaming open_ next (stop_frame w) =
    if contains w open_ then streaming (remove w open_) next else broken
receive_streaming open_ next (error_frame _ _) = errored
receive_streaming open_ next (finish_frame _ _) = finished open_
receive_streaming open_ next end_frame = broken

abbrev pub receive_awaiting : Frame → Client
receive_awaiting (start_frame _ _ _) = streaming [] 0
receive_awaiting _ = broken

abbrev pub receive_closing : Frame → Client
receive_closing end_frame = complete
receive_closing _ = broken

abbrev pub receive : Client → Frame → Client
receive awaiting f = receive_awaiting f
receive (streaming open_ next) f = receive_streaming open_ next f
receive closing f = receive_closing f
receive complete f = broken
receive errored f = broken
receive broken f = broken

abbrev pub receive_all : Client → List Frame → Client
receive_all c [] = c
receive_all c (f ∷ fs) = receive_all (receive c f) fs

pub receive_all-append :
    (c : Client) (fs : List Frame) (f : Frame)
    → receive_all c (fs ++ (f ∷ [])) ≡ receive (receive_all c fs) f
receive_all-append c [] f = refl
receive_all-append c (g ∷ fs) f = receive_all-append (receive c g) fs f
