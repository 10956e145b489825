-- ===== src/WebSocket/Messages.antt =====
-- components/network_services/websocket_service.cpp: the fragments of text messages, through the default of
-- OnFragmentReceived.
use orb_private.Prelude.{
  ℕ, ◌≡◌, refl, ◌∙◌, ap, Bool, true, false, some, List, [], ◌∷◌, ◌++◌, append_assoc, Text,
  if◌then◌else◌,
}
use orb_private.WebSocket.{
  Fragment, WebSocketConnection, WebSocketService, find_connection, change_connection,
}
use orb_private.WebSocket.Callback.{with_buffer, default_on_fragment_received}
use orb_private.WebSocket.Store.{mapped, find-change_same, change-change}

abbrev fragment : Bool → Bool → Text → Fragment
fragment is_first is_final text = record {
  data_bytes = text;
  is_first = is_first;
  is_final = is_final;
  is_binary = false;
}

-- The fragments that follow the first `parts` of a message, and all of its fragments.
abbrev later : Text → List Text → List Fragment
later part [] = fragment false true part ∷ []
later part (next ∷ parts) = fragment false false part ∷ later next parts

abbrev pub fragments : Text × List Text → List Fragment
fragments (part, []) = fragment true true part ∷ []
fragments (part, next ∷ parts) = fragment true false part ∷ later next parts

abbrev joined : Text → List Text → Text
joined part [] = part
joined part (next ∷ parts) = part ++ joined next parts

-- The text that the parts make.
abbrev pub message_of : Text × List Text → Text
message_of (part, parts) = joined part parts

abbrev pub all_fragments : List (Text × List Text) → List Fragment
all_fragments [] = []
all_fragments (m ∷ ms) = fragments m ++ all_fragments ms

module _ (on_message_received : ℕ → Text → WebSocketService → WebSocketService) (user : ℕ) where
  -- The fragments of a connection, one after the other.
  abbrev pub receive_all : List Fragment → WebSocketService → WebSocketService
  receive_all [] s = s
  receive_all (f ∷ fs) s =
      receive_all fs (default_on_fragment_received on_message_received user f s)

  abbrev buffering : Text → WebSocketService → WebSocketService
  buffering text s = record s {
    connections = change_connection user (with_buffer text) s.connections;
  }

  -- A message: its text is in the buffer, and the service gets it.
  abbrev pub on_message : Text → WebSocketService → WebSocketService
  on_message text s = on_message_received user text (buffering text s)

  abbrev pub on_messages : List (Text × List Text) → WebSocketService → WebSocketService
  on_messages [] s = s
  on_messages (m ∷ ms) s = on_messages ms (on_message (message_of m) s)

  abbrev pub Known : WebSocketService → Type 0
  Known s = (c : WebSocketConnection) × (find_connection user s.connections ≡ some c)

  buffering-find :
      (text : Text) (s : WebSocketService) (c : WebSocketConnection)
      → find_connection user s.connections ≡ some c
      → find_connection user (buffering text s).connections ≡ some (with_buffer text c)
  unfolding mapped
  buffering-find text s c h =
      find-change_same user (with_buffer text) s.connections ∙ ap (mapped (with_buffer text)) h

  -- The next fragment, where the buffer has the text so far.
  next_fragment :
      (is_final : Bool) (text next : Text) (s : WebSocketService)
      → Known s
      → default_on_fragment_received on_message_received user
          (fragment false is_final next)
          (buffering text s)
        ≡ (if is_final then on_message (text ++ next) s else buffering (text ++ next) s)
  unfolding default_on_fragment_received
  next_fragment is_final text next s (c, h) =
      rw
        (
          buffering-find text s c h,
          change-change user (with_buffer (text ++ next)) (with_buffer text) s.connections,
        )
        refl

  -- The rest of a message.
  receive_all-later :
      (text part : Text) (parts : List Text) (fs : List Fragment) (s : WebSocketService)
      → Known s
      → receive_all (later part parts ++ fs) (buffering text s)
        ≡ receive_all fs (on_message (text ++ joined part parts) s)
  receive_all-later text part [] fs s k = ap (receive_all fs) (next_fragment true text part s k)
  receive_all-later text part (next ∷ parts) fs s k =
      ap (receive_all (later next parts ++ fs)) (next_fragment false text part s k)
      ∙ receive_all-later (text ++ part) next parts fs s k
      ∙ ap (λ t. receive_all fs (on_message t s)) (append_assoc text part (joined next parts))

  receive_all-fragments :
      (m : Text × List Text) (fs : List Fragment) (s : WebSocketService)
      → Known s
      → receive_all (fragments m ++ fs) s ≡ receive_all fs (on_message (message_of m) s)
  unfolding default_on_fragment_received
  receive_all-fragments (part, []) fs s k = refl
  receive_all-fragments (part, next ∷ parts) fs s k = receive_all-later part next parts fs s k

  -- Text messages that come in fragments reach the service whole: where it keeps the connection while it
  -- handles a message, each is handled once, in order, as the parts of its fragments joined, whatever the
  -- buffer had before.
  pub receive_all-messages :
      ((text : Text) (s : WebSocketService) → Known s → Known (on_message_received user text s))
      → (ms : List (Text × List Text)) (s : WebSocketService) → Known s
      → receive_all (all_fragments ms) s ≡ on_messages ms s
  receive_all-messages keeps [] s k = refl
  receive_all-messages keeps (m ∷ ms) s (c, h) =
      let text = message_of m in
      receive_all-fragments m (all_fragments ms) s (c, h)
      ∙ receive_all-messages keeps ms (on_message text s)
          (keeps text (buffering text s) (with_buffer text c, buffering-find text s c h))
