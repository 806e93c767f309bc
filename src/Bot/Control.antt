-- ===== src/Bot/Control.antt =====
-- `handleControl` and `handleWAEvent` (session.go), over a WhatsApp client that is not in the
-- repository.
use Prim.Native.String.{◌++◌ as append}
use zev_bot.Prelude.{
  String, Option, none, some, ◌⊎◌, inl, inr, Bool, true, false, str_eq, if◌then◌else◌,
}
use zev_bot.Jid.{Jid, empty_jid}
use zev_bot.Bot.Messages.{
  ControlMessage, EventMessage, ControlType, Json, SendMessagePayload, SendReactionPayload,
  EditMessagePayload, RevokeMessagePayload, ack_event, simple_event, decode_send_message,
  decode_send_reaction, decode_edit_message, decode_revoke_message, send_message, send_reaction,
  edit_message, revoke_message, disconnect, logout, get_status, unknown, status, pair_success,
  pair_error, logged_out, disconnected, connected, incoming_message, reason, message, state,
}

-- `waE2E.Message`: a text, a text that quotes a message of a sender, or one that the client built.
pub data Message (B : Type 0) : Type 0 where
  conversation : String → Message B
  quoted : String → String → String → Message B
  built : B → Message B

-- `whatsmeow.Client` and the JID parser of `types`. A call answers with the text of its error, if any.
pub record Client : Type 1 where
  pub World : Type 0
  pub Built : Type 0
  pub parse_jid : String → String ⊎ Jid
  pub new_user_jid : String → Jid  -- `types.NewJID(user, types.DefaultUserServer)`
  pub build_reaction : Jid → Jid → String → String → Built
  pub build_edit : Jid → String → Message Built → Built
  pub build_revoke : Jid → Jid → String → Built
  pub send : Jid → Message Built → World → Option String × World
  pub disconnect_client : World → World
  pub logout_client : World → Option String × World
  pub is_connected : World → Bool
  pub is_logged_in : World → Bool

module _ (client : Client) where
  open client use {
    World, Built, parse_jid, new_user_jid, build_reaction, build_edit, build_revoke, send,
    disconnect_client, logout_client, is_connected, is_logged_in,
  }

  -- What a handler returns, and the client after it.
  abbrev pub Handled : Type 0
  Handled = EventMessage × World

  abbrev pub refused : String → String → World → Handled
  refused id why w = (ack_event id false why, w)

  abbrev pub acked : String → Option String × World → Handled
  acked id (none, w) = (ack_event id true "", w)
  acked id (some e, w) = (ack_event id false e, w)

  abbrev pub proceed : String → String → World → (Jid → Handled) → String ⊎ Jid → Handled
  proceed id what w k (inl e) = refused id (append what e) w
  proceed id what w k (inr jid) = k jid

  -- `types.ParseJID`, and the handler's return where it fails
  unfoldable pub parsed : String → String → String → World → (Jid → Handled) → Handled
  parsed id what s w k = proceed id what w k (parse_jid s)

  unfoldable pub message_of : SendMessagePayload → Message Built
  message_of p = elim p.quote_id [
    | none ↦ conversation p.text
    | some quote ↦ elim p.quote_sender [
      | none ↦ conversation p.text
      | some sender ↦ quoted p.text quote sender
    ]
  ]

  unfoldable pub handle_send_message : String → Option SendMessagePayload → World → Handled
  unfolding parsed message_of
  handle_send_message id none w = refused id "invalid payload" w
  handle_send_message id (some p) w =
      parsed id "invalid JID: " p.to w (λ jid. acked id (send jid (message_of p) w))

  abbrev pub sender_jid : String → Option String → World → (Jid → Handled) → Handled
  sender_jid id none w k = k empty_jid
  sender_jid id (some sender) w k = parsed id "invalid sender JID: " sender w k

  unfoldable pub handle_send_reaction : String → Option SendReactionPayload → World → Handled
  unfolding parsed
  handle_send_reaction id none w = refused id "invalid payload" w
  handle_send_reaction id (some p) w = parsed id "invalid JID: " p.to w (λ jid.
      sender_jid id p.sender w
        (λ sender. acked id (send jid (built (build_reaction jid sender p.message_id p.emoji)) w)))

  -- The edit carries `new(string)`, an empty text.
  unfoldable pub handle_edit_message : String → Option EditMessagePayload → World → Handled
  unfolding parsed
  handle_edit_message id none w = refused id "invalid payload" w
  handle_edit_message id (some p) w =
      parsed id "invalid JID: " p.to w
        (λ jid. acked id (send jid (built (build_edit jid p.message_id (conversation ""))) w))

  abbrev pub original_sender_jid : Option String → Jid
  original_sender_jid none = empty_jid
  original_sender_jid (some user) = new_user_jid user

  unfoldable pub handle_revoke_message : String → Option RevokeMessagePayload → World → Handled
  unfolding parsed
  handle_revoke_message id none w = refused id "invalid payload" w
  handle_revoke_message id (some p) w = parsed id "invalid JID: " p.to w (λ jid.
      let sender = original_sender_jid p.original_sender in
      acked id (send jid (built (build_revoke jid sender p.message_id)) w))

  unfoldable pub handle_kind : ControlType → String → Option Json → World → Handled
  unfolding handle_send_message handle_send_reaction handle_edit_message handle_revoke_message
  handle_kind send_message id payload w = handle_send_message id (decode_send_message payload) w
  handle_kind send_reaction id payload w = handle_send_reaction id (decode_send_reaction payload) w
  handle_kind edit_message id payload w = handle_edit_message id (decode_edit_message payload) w
  handle_kind revoke_message id payload w =
      handle_revoke_message id (decode_revoke_message payload) w
  handle_kind get_status id payload w =
      (record { kind = status; id = some id; payload = state (is_connected w) (is_logged_in w) }, w)
  handle_kind disconnect id payload w = (ack_event id true "", disconnect_client w)
  handle_kind logout id payload w = acked id (logout_client w)
  handle_kind (unknown kind) id payload w = refused id "unknown control type" w

  abbrev pub handle_control : ControlMessage → World → Handled
  handle_control ctrl w = handle_kind ctrl.kind ctrl.id ctrl.payload w

-- The events of the client that `handleWAEvent` tells apart, by what it reads of them.
pub data WaEvent : Type 0 where
  qr pair_succeeded was_logged_out was_disconnected was_connected unhandled : WaEvent
  pair_failed : String → WaEvent
  -- the conversation, the extended text, the sender and the id
  received : String → Option String → String → String → WaEvent

unfoldable pub text_of : String → Option String → String
text_of text none = text
text_of text (some extended) = if str_eq text "" then extended else text

-- The event that is broadcast, if any.
unfoldable pub handle_wa_event : WaEvent → Option EventMessage
unfolding simple_event text_of
handle_wa_event qr = none
handle_wa_event pair_succeeded = some (simple_event pair_success)
handle_wa_event (pair_failed why) =
    some (record { kind = pair_error; id = none; payload = reason why })
handle_wa_event was_logged_out = some (simple_event logged_out)
handle_wa_event was_disconnected = some (simple_event disconnected)
handle_wa_event was_connected = some (simple_event connected)
handle_wa_event (received text extended sender id) = some (record {
  kind = incoming_message;
  id = none;
  payload = message sender (text_of text extended) id;
})
handle_wa_event unhandled = none
