-- ===== src/Send/Backend/Answer.antt =====
-- The answer that a last token completes, in `handleToken` of useTauriEvents.ts.
use musaed.Base.{
  ℕ, String, Text, true, false, Option, none, some, List, [], ◌∷◌, ◌++◌, ◌≡◌, refl, ap, ◌∙◌, arith,
  Bool-cases, inl, inr, is_empty, last?-concat, append-nil,
}
use musaed.Base.Dict.{get}
use musaed.Message.{Message, Metrics, assistant, given_or}
use musaed.Store.Streaming.{owns}
use musaed.Coordination.{App, complete, buffer, is_stale}
use musaed.Coordination.Streams.{running}
use musaed.Coordination.Stop.{resolves, get-running-stop_stream}
use musaed.Coordination.Delivery.{unseen, shown, Gained, stop_stream-Extends}
use musaed.Coordination.Events.{token, counts, handle}
use musaed.Coordination.Buffering.{IsReady, part_for}
use musaed.Coordination.Tokens.{handle-IsReady}
use musaed.Send.Backend.{
  OllamaToken, Effect, persist_answer, auto_title, addressee, counts_of, has_counts, set_counts,
  save_answer, after_answer, take_token, finish_answer, receive, handle_token,
}

-- The state after a token: as ready as before, with its text received and nothing shown yet.
abbrev Received : String → String → Text → App → App → Type 0
Received c r text a b = IsReady c r b × (unseen c b ≡ unseen c a ++ text) × (shown c b ≡ shown c a)

set_counts-Received :
    (c r : String) (m : Metrics) (text : Text) (a b : App)
    → Received c r text a b
    → Received c r text a (set_counts c r m b)
unfolding handle
set_counts-Received c r m text a b (ready, more, same) = elim (Bool-cases (has_counts m)) [
  | inl e ↦
      let (done, kept) = handle-IsReady c r 0 (counts c r m) b ready tt in
      rw e (done, kept ∙ append-nil (unseen c b) ∙ more, same)
  | inr e ↦ rw e (ready, more, same)
]

own_text : (c : String) (text : Text) → part_for c c text ≡ text
own_text c text = ground arith

take_token-Received :
    (frame : Option ℕ) (t : OllamaToken) (c r : String) (a : App)
    → IsReady c r a
    → Received c r (given_or t.content []) a (take_token frame t c r a)
unfolding take_token handle buffer
take_token-Received frame t c r a h =
    let text = given_or t.content [] in
    let (ready, more) = handle-IsReady c r 0 (token frame c text r) a h (λ _. refl) in
    set_counts-Received c r (counts_of t) text a (buffer frame c text r a)
      (ready, more ∙ ap (λ x. unseen c a ++ x) (own_text c text), refl)

is_empty-concat : (ms : List Message) (m : Message) → is_empty (ms ++ m ∷ []) ≡ false
is_empty-concat [] m = refl
is_empty-concat (x ∷ ms) m = refl

saves :
    {c : String} {rest : List Effect} (m : Message)
    → m.role ≡ assistant
    → save_answer c (some m) ++ rest ≡ persist_answer c m ∷ rest
saves m e = ground (arith, e)

after_answer-concat :
    (c : String) (ms : List Message) (m : Message)
    → m.role ≡ assistant
    → after_answer c (ms ++ m ∷ []) ≡ persist_answer c m ∷ auto_title c ∷ []
after_answer-concat c ms m e = rw (last?-concat ms m, is_empty-concat ms m) (saves m e)

-- The last message gained the text of the answer, the answer is saved as it is shown, and the title
-- of its conversation is made.
pub record Answered (c : String) (ms : List Message) (m : Message) (text : Text)
    (out : App × List Effect) : Type 0 where
  pub answer : Message
  pub is_shown : shown c out.0 ≡ ms ++ answer ∷ []
  pub gained : Gained m text (some false) answer
  pub effects : out.1 ≡ persist_answer c answer ∷ auto_title c ∷ []
  pub ended : get c (running out.0) ≡ none

resolves_of_IsReady : (c r : String) (a : App) → IsReady c r a → resolves c none a ≡ true
unfolding owns is_stale
resolves_of_IsReady c r a h = ground (arith, h.owned)

finish_answer-Answered :
    (now : ℕ) (c r : String) (a : App) (ms : List Message) (m : Message)
    → IsReady c r a
    → shown c a ≡ ms ++ m ∷ []
    → m.role ≡ assistant
    → Answered c ms m (unseen c a) (finish_answer now c a)
unfolding finish_answer
finish_answer-Answered now c r a ms m h e is_answer =
    let ok = resolves_of_IsReady c r a h in
    let (m', at, g) =
      stop_stream-Extends now c complete none a ms m h.registered h.keyed ok refl e in
    record {
      answer = m';
      is_shown = at;
      gained = g;
      effects = ap (after_answer c) at ∙ after_answer-concat c ms m' (g.same_role ∙ is_answer);
      ended = ground (arith, get-running-stop_stream now c c complete none a h.registered, ok);
    }

receive_done :
    (now : ℕ) (frame : Option ℕ) (t : OllamaToken) (c r : String) (a : App)
    → t.done ≡ true
    → receive now frame t (some (c, r)) a ≡ finish_answer now c (take_token frame t c r a)
unfolding receive
receive_done now frame t c r a done = ground (arith, done)

-- The last token of an answer, for the request that owns the stream. The answer gains all that the
-- stream had received and the text of this token, is not marked as stopped, and is saved as it is
-- then shown; a title is made; the stream has ended.
pub handle_token-Answered :
    (now : ℕ) (frame : Option ℕ) (t : OllamaToken) (c r : String) (a : App) (ms : List Message)
    (m : Message)
    → IsReady c r a
    → addressee t.request_id (running a) ≡ some (c, r)
    → t.done ≡ true
    → shown c a ≡ ms ++ m ∷ []
    → m.role ≡ assistant
    → Answered c ms m (unseen c a ++ given_or t.content []) (handle_token now frame t a)
unfolding handle_token
handle_token-Answered now frame t c r a ms m h at done e is_answer =
    let (ready, more, same) = take_token-Received frame t c r a h in
    rw (at, receive_done now frame t c r a done, ← more)
      (finish_answer-Answered now c r (take_token frame t c r a) ms m ready (same ∙ e) is_answer)
