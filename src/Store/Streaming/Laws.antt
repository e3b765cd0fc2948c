-- ===== src/Store/Streaming/Laws.antt =====
-- What the updates of streaming-store.ts do to each conversation.
use musaed.Base.{String, Text, true, false, [], ◌++◌}
use musaed.Base.{ite, text_discrete, ◌≡◌, arith}
use musaed.Base.Dict.{get, get-set}
use musaed.Message.{given_or}
use musaed.Store.Streaming.{StreamingState, owns, append_token}

-- What a conversation has received and not yet flushed.
abbrev pub buffered : String → StreamingState → Text
buffered c s = given_or (get c s.live_content) []

-- A token counts for its conversation alone, and only while its request owns the stream.
pub buffered-append_token :
    (c d request : String) (token : Text) (s : StreamingState)
    → buffered d (append_token c token request s)
      ≡ ite
          (text_discrete d c)
          (elim (owns c request s) [ true ↦ buffered c s ++ token | false ↦ buffered c s ])
          (buffered d s)
unfolding append_token
buffered-append_token c d request token s =
    ground (arith, get-set c d (buffered c s ++ token) s.live_content)

pub active-append_token :
    (c request : String) (token : Text) (s : StreamingState)
    → (append_token c token request s).active_streams ≡ s.active_streams
unfolding append_token
active-append_token c request token s = ground arith
