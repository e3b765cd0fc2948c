-- ===== src/Send/Service/Sending.antt =====
-- What a message goes through in ChatSendService.ts, from its guards to the end of its call.
use musaed.Base.{
  ℕ, String, Text, Bool, true, false, Option, none, some, List, [], ◌∷◌, ◌≤◌, ◌≡◌, refl, ap, subst,
  arith, ltb, not, ◌&&◌, ◌||◌, is_empty, length, if_split, All, find,
}
use musaed.Base.Dict.{get, get-set_self}
use musaed.Message.{Message}
use musaed.Store.Messages.{messages_of}
use musaed.Store.Streaming
use musaed.Coordination.{coordinate_start_stream, batch_end, is_stale}
use musaed.Coordination.Streams.{running, IsRegistered}
use musaed.Coordination.Stop.{get-running-stop_stream}
use musaed.Base.Texts.{trim}
use musaed.Send.Texts.{Labels, File, build_prompt}
use musaed.Send.Service.Guards.{
  Deps, Stores, Prepared, Checked, ready, check_message, check_input, prepare, is_listed,
  max_message_content_len,
}
use musaed.Send.Service.Requests.{Rag, Ids}
use musaed.Send.Service.Steps.{
  send_begin, send_failed, send_finish, accepted, is_answer, edit_continue, edited_message,
}

-- What the guards tell of a message that they let through.
pub record IsSendable (t : Labels) (input : Text) (images : List String) (files : List File)
    (s : Stores) (p : Prepared) : Type 0 where
  pub chosen : s.current ≡ some p.conversation
  pub known : is_listed p.conversation s.conversations ≡ true
  pub with_model : s.selected_model ≡ some p.model
  pub text : p.trimmed ≡ trim input
  pub prompt : p.prompt ≡ build_prompt (trim input) files t
  pub short : length p.prompt ≤ max_message_content_len
  pub something : (is_empty p.trimmed && is_empty images && is_empty files) ≡ false

-- The guards on the input.
checked_input :
    (has_attachments : Bool) (s : Stores) (q p : Prepared)
    → check_input has_attachments s q ≡ ready p
    → (q ≡ p)
      × (is_listed q.conversation s.conversations ≡ true)
      × (length q.prompt ≤ max_message_content_len)
      × ((is_empty q.trimmed && not has_attachments) ≡ false)
checked_input has_attachments s q p =
    if_split Tells (is_empty q.trimmed && not has_attachments) _ _
      (λ _ f. absurd (ground (arith, f)))
      (λ e.
        if_split Tells (is_listed q.conversation s.conversations) _ _
          (λ g.
            if_split Tells (ltb max_message_content_len (length q.prompt)) _ _
              (λ _ f. absurd (ground (arith, f)))
              (λ h f. (ground (arith, f), g, ground (arith, h), e)))
          (λ _ f. absurd (ground (arith, f))))
  where
    Tells : Checked → Type 0
    Tells c =
        c ≡ ready p
        → (q ≡ p)
          × (is_listed q.conversation s.conversations ≡ true)
          × (length q.prompt ≤ max_message_content_len)
          × ((is_empty q.trimmed && not has_attachments) ≡ false)

-- A message passes the guards only when a known conversation and a model are chosen, it has a text or
-- an attachment, and the prompt with its files is within the limit; and the prompt is that of the
-- trimmed input.
pub check_message-IsSendable :
    (t : Labels) (input : Text) (images : List String) (files : List File) (s : Stores)
    (p : Prepared)
    → check_message t input images files s ≡ ready p
    → IsSendable t input images files s p
unfolding check_message
check_message-IsSendable t input images files s p = go s.selected_model s.current refl refl
  where
    go :
        (m c : Option String)
        → s.selected_model ≡ m
        → s.current ≡ c
        → check_message t input images files s ≡ ready p
        → IsSendable t input images files s p
    go none c model chosen e = absurd (ground (arith, e, model))
    go (some m) none model chosen e = absurd (ground (arith, e, model, chosen))
    go (some m) (some c) model chosen e =
        let q = prepare t input files c m in
        let has_attachments = not (is_empty images) || not (is_empty files) in
        let passed : check_input has_attachments s q ≡ ready p =
          rw (model, chosen, check_message) at e in
        let (same, known, short, something) = checked_input has_attachments s q p passed in
        subst (IsSendable t input images files s) same (record {
          chosen = chosen;
          known = known;
          with_model = model;
          text = refl;
          prompt = refl;
          short = short;
          something = ground (arith, something);
        })

-- When the lookup fails, the conversation is left without a stream of the request, if the stream was
-- not replaced meanwhile.
send_failed-ends :
    (now : ℕ) (request : String) (p : Prepared) (s : Stores)
    → IsRegistered s.app
    → get p.conversation (running s.app) ≡ some request
    → get p.conversation (running (send_failed now request p s).app) ≡ none
unfolding send_failed is_stale
send_failed-ends now request p s r e = ground (
  arith,
  get-running-stop_stream now p.conversation p.conversation batch_end (some request) s.app r,
)

-- A request whose identifier is new: no message carries it.
abbrev pub IsNew : String → List Message → Type 0
IsNew request ms = All (λ m. is_answer request m ≡ false) ms

nothing_found :
    (request : String) (ms : List Message) → IsNew request ms → find (is_answer request) ms ≡ none
nothing_found request [] h = refl
nothing_found request (m ∷ ms) (e, h) = rw e (nothing_found request ms h)

-- An accepted call persists no answer: the message with the identifier of the request was added
-- after the messages were read that it is looked for in.
answer_not_persisted :
    (now : ℕ) (deps : Deps) (request : String) (p : Prepared) (before s : Stores)
    → IsNew request (messages_of p.conversation before.app.messages)
    → send_finish now deps request p before accepted s ≡ (s, none)
unfolding send_finish
answer_not_persisted now deps request p before s h =
    ap (λ o. (s, o)) (nothing_found request (messages_of p.conversation before.app.messages) h)

-- An edit of a message that is not there, or that is not one of the user, leaves the stream that was
-- started for it: the conversation streams under the request, and nothing is sent.
edit_leaves_stream :
    (deps : Deps) (id request : String) (p : Prepared) (images : List String) (ids : Ids)
    (rag : Rag) (before : Stores)
    → edited_message id p before ≡ none
    → let (s, sent) =
        edit_continue deps id request p images ids rag before (send_begin request p before) in
      (sent ≡ none) × (get p.conversation (running s.app) ≡ some request)
unfolding edit_continue send_begin coordinate_start_stream Streaming.start_stream
edit_leaves_stream deps id request p images ids rag before e =
    rw (e, edit_continue) (refl, get-set_self p.conversation request (running before.app))
