-- ===== src/Send/Service/Guards.antt =====
-- What sendMessage and editAndResend of ChatSendService.ts check before they send, and the stores that
-- they read.
use musaed.Base.{
  ℕ, String, Text, Bool, true, false, Option, none, some, List, [], ◌∷◌, ltb, ◌&&◌, ◌||◌, not,
  if◌then◌else◌, is_empty, length, ite, text_discrete,
}
use musaed.Store.ModelParams.{ModelParamsState}
use musaed.Budget.Params.{ModelDefaultParams}
use musaed.Coordination.{App}
use musaed.Base.Texts.{trim}
use musaed.Send.Texts.{Labels, File, build_prompt}

-- `ChatSendServiceDeps`, past the injected functions.
pub record Deps : Type 0 where
  pub labels : Labels
  pub context_window : Option ℕ
  pub default_params : Option ModelDefaultParams

-- The stores that the service reads. A model or a conversation that is not chosen is `none`.
pub record Stores : Type 0 where
  pub app : App
  pub conversations : List String
  pub current : Option String
  pub selected_model : Option String
  pub system_prompt : Text
  pub profiles : ModelParamsState

-- `MAX_MESSAGE_CONTENT_LEN`
abbrev pub max_message_content_len : ℕ
max_message_content_len = 65536

-- Why nothing is sent; the second and the last are told to the user.
pub data Refusal : Type 0 where
  no_conversation no_model nothing_to_send unknown_conversation too_long : Refusal

-- What the guards let through.
pub record Prepared : Type 0 where
  pub conversation : String
  pub model : String
  pub trimmed : Text
  pub prompt : Text

pub data Checked : Type 0 where
  refused : Refusal → Checked
  ready : Prepared → Checked

unfoldable pub is_listed : String → List String → Bool
is_listed c [] = false
is_listed c (d ∷ ds) = ite (text_discrete c d) true (is_listed c ds)

abbrev pub check_length : Prepared → Checked
check_length p = if ltb max_message_content_len (length p.prompt) then refused too_long else ready p

abbrev pub check_input : Bool → Stores → Prepared → Checked
check_input has_attachments s p =
    if is_empty p.trimmed && not has_attachments
    then refused nothing_to_send
    else if is_listed p.conversation s.conversations
    then check_length p
    else refused unknown_conversation

abbrev pub prepare : Labels → Text → List File → String → String → Prepared
prepare t input files c model = record {
  conversation = c;
  model = model;
  trimmed = trim input;
  prompt = build_prompt (trim input) files t;
}

-- The guards of `sendMessage`.
unfoldable pub check_message : Labels → Text → List String → List File → Stores → Checked
unfolding is_listed
check_message t input images files s = elim s.selected_model [
  | none ↦ refused no_model
  | some model ↦ elim s.current [
    | none ↦ refused no_conversation
    | some c ↦
        check_input (not (is_empty images) || not (is_empty files)) s
          (prepare t input files c model)
  ]
]

-- The guards of `editAndResend`: those of the known conversation and of the length are not among them.
unfoldable pub check_edit : Labels → Text → List String → Stores → Checked
check_edit t input images s = elim s.selected_model [
  | none ↦ refused no_model
  | some model ↦ elim s.current [
    | none ↦ refused no_conversation
    | some c ↦
        if is_empty (trim input) && is_empty images
        then refused nothing_to_send
        else ready (prepare t input [] c model)
  ]
]
