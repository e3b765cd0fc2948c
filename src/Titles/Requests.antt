-- ===== src/Titles/Requests.antt =====
-- What title-generator.ts asks the backend.
use musaed.Base.{
  ℕ, Text, Option, none, some, List, [], ◌∷◌, ◌++◌, ◌≤◌, ◌≡◌, sym, arith, leb, length, take, drop,
  length-take, take-drop, append-nil, All, if_split, is_empty, find, ◌||◌, Option-cases, inl, inr,
  String,
}
use musaed.Message.{Message, is_user, is_assistant}
use musaed.Thinking.{Tag, tags, strip_thinking_blocks}
use musaed.Thinking.Stripped.{IsFree, IsFree-part, strip_thinking_blocks-IsFree}
use musaed.Titles.{TitleRequest, request_of, truncate, title_request}

truncate_rest : (text : Text) (n : ℕ) → (rest : Text) × (text ≡ truncate text n ++ rest)
unfolding truncate
truncate_rest text n =
    if_split (λ t. (rest : Text) × (text ≡ t ++ rest)) (leb (length text) n) text (take n text)
      (λ _. ([], sym (append-nil text))) (λ _. (drop n text, sym (take-drop n text)))

truncate-length : (text : Text) (n : ℕ) → length (truncate text n) ≤ n
unfolding truncate
truncate-length text n = ground (arith, length-take n text)

truncate-IsFree :
    (text : Text) (n : ℕ) (ts : List Tag) → All (IsFree text) ts → All (IsFree (truncate text n)) ts
truncate-IsFree text n [] h = tt
truncate-IsFree text n (t ∷ ts) (h, hs) =
    let (rest, at) = truncate_rest text n in
    (IsFree-part [] (truncate text n) rest text t at h, truncate-IsFree text n ts hs)

-- Both texts are short, and the answer is sent without what the model thought.
pub record IsClean (r : TitleRequest) : Type 0 where
  pub short_question : length r.user_message ≤ 500
  pub short_answer : length r.assistant_message ≤ 500
  pub free : All (IsFree r.assistant_message) tags

abbrev pub AllClean : Option TitleRequest → Type 0
AllClean none = Unit
AllClean (some r) = IsClean r

request_of-IsClean :
    (model : String) (question answer : Text) → IsClean (request_of model question answer)
request_of-IsClean model question answer = record {
  short_question = truncate-length question 500;
  short_answer = truncate-length (strip_thinking_blocks answer) 500;
  free =
      truncate-IsFree (strip_thinking_blocks answer) 500 tags (strip_thinking_blocks-IsFree answer);
}

-- What the backend is asked is short, and the answer is sent without what the model thought: no
-- opening tag of any format is left in it, in upper or lower case.
pub title_request-IsClean :
    (model : String) (messages : List Message) → AllClean (title_request model messages)
unfolding title_request
title_request-IsClean model messages = elim (Option-cases (find (λ m. is_user m.role) messages)) [
  | inl e ↦ rw (AllClean, title_request, e) tt
  | inr (u, e) ↦ elim (Option-cases (find (λ m. is_assistant m.role) messages)) [
    | inl f ↦ rw (AllClean, title_request, e, f) tt
    | inr (a, f) ↦
        rw (AllClean, title_request, e, f)
          (if_split AllClean (is_empty u.content || is_empty a.content) none
            (some (request_of model u.content a.content)) (λ _. tt)
            (λ _. request_of-IsClean model u.content a.content))
  ]
]
