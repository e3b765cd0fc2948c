-- ===== src/Store/Ui.antt =====
-- apps/web/src/store/ui-store.ts: the flags of the user interface.
use musaed.Base.{Text, Bool, false, Option, none, some}
use musaed.Base.Int.{ℤ, pos, pred, is_nonpos}

pub data SidebarTab : Type 0 where
  chats projects : SidebarTab

pub data ModalKind : Type 0 where
  settings library info cheatsheet command_palette search_modal : ModalKind

pub record UiState : Type 0 where
  pub is_streaming : Bool
  pub is_initialized : Bool
  pub is_hydrated : Bool
  pub is_ollama_connected : Bool
  pub error_message : Option Text
  pub active_modal : Option ModalKind
  pub sidebar_tab : SidebarTab
  pub show_add_project : Bool
  pub pending_rehydrations : ℤ

abbrev pub initial_ui : UiState
initial_ui = record {
  is_streaming = false;
  is_initialized = false;
  is_hydrated = false;
  is_ollama_connected = false;
  error_message = none;
  active_modal = none;
  sidebar_tab = chats;
  show_add_project = false;
  pending_rehydrations = pos 0;
}

abbrev pub set_streaming : Bool → UiState → UiState
set_streaming b u = record u { is_streaming = b }

abbrev pub set_initialized : Bool → UiState → UiState
set_initialized b u = record u { is_initialized = b }

abbrev pub set_hydrated : Bool → UiState → UiState
set_hydrated b u = record u { is_hydrated = b }

abbrev pub set_ollama_connected : Bool → UiState → UiState
set_ollama_connected b u = record u { is_ollama_connected = b }

abbrev pub set_sidebar_tab : SidebarTab → UiState → UiState
set_sidebar_tab tab u = record u { sidebar_tab = tab }

abbrev pub set_show_add_project : Bool → UiState → UiState
set_show_add_project b u = record u { show_add_project = b }

abbrev pub set_error_message : Option Text → UiState → UiState
set_error_message e u = record u { error_message = e }

abbrev pub open_modal : ModalKind → UiState → UiState
open_modal kind u = record u { active_modal = some kind }

abbrev pub close_modal : UiState → UiState
close_modal u = record u { active_modal = none }

abbrev pub set_pending_rehydrations : ℤ → UiState → UiState
set_pending_rehydrations n u = record u { pending_rehydrations = n }

-- `onStoreRehydrated`: the flag is the outcome of the last call.
unfoldable pub on_store_rehydrated : UiState → UiState
on_store_rehydrated u =
    let next = pred u.pending_rehydrations in
    record u { pending_rehydrations = next; is_hydrated = is_nonpos next }
