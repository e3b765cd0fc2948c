-- ===== src/Send/Texts.antt =====
-- The texts that the send pipeline reads and joins: `buildPromptWithContext` of ChatSendService.ts,
-- and the words by which a cancellation is known. Lower case is that of ASCII: no other character
-- becomes a letter of those words.
use musaed.Base.{Text, Bool, List, [], ◌∷◌, ◌++◌, ◌||◌}
use musaed.Base.Texts.{lower_case, contains}

abbrev pub aborted : Text
aborted = 97 ∷ 98 ∷ 111 ∷ 114 ∷ 116 ∷ 101 ∷ 100 ∷ []

abbrev pub cancel : Text
cancel = 99 ∷ 97 ∷ 110 ∷ 99 ∷ 101 ∷ 108 ∷ []

abbrev pub runner_terminated : Text
runner_terminated =
    114 ∷ 117 ∷ 110 ∷ 110 ∷ 101 ∷ 114 ∷ 32 ∷ 112 ∷ 114 ∷ 111 ∷ 99 ∷ 101 ∷ 115 ∷ 115 ∷ 32 ∷ 104 ∷ 97
    ∷ 115 ∷ 32 ∷ 116 ∷ 101 ∷ 114 ∷ 109 ∷ 105 ∷ 110 ∷ 97 ∷ 116 ∷ 101 ∷ 100 ∷ []

-- The filter for aborted and cancelled requests.
unfoldable pub is_cancellation : Text → Bool
unfolding contains
is_cancellation message =
    let lower = lower_case message in
    contains aborted lower
    || contains (cancel ++ 108 ∷ 101 ∷ 100 ∷ []) lower
    || contains (cancel ++ 101 ∷ 100 ∷ []) lower
    || contains cancel lower

-- The texts of the translation that end up in messages.
pub record Labels : Type 0 where
  pub file_label : Text → Text
  pub content_label : Text
  pub context_label : Text
  pub load_hint : Text
  pub error_prefix : Text
  pub generic_error : Text

pub record File : Type 0 where
  pub name : Text
  pub content : Text

abbrev pub file_text : Labels → File → Text
file_text t f = t.file_label f.name ++ 10 ∷ t.content_label ++ 10 ∷ f.content

-- `join('\n\n---\n\n')`
unfoldable pub join_files : Labels → List File → Text
join_files t [] = []
join_files t (f ∷ []) = file_text t f
join_files t (f ∷ g ∷ fs) =
    file_text t f ++ 10 ∷ 10 ∷ 45 ∷ 45 ∷ 45 ∷ 10 ∷ 10 ∷ join_files t (g ∷ fs)

-- `buildPromptWithContext`
unfoldable pub build_prompt : Text → List File → Labels → Text
unfolding join_files
build_prompt input [] t = input
build_prompt input (f ∷ fs) t = input ++ 10 ∷ 10 ∷ t.context_label ++ 10 ∷ join_files t (f ∷ fs)
