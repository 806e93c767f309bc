-- ===== src/Bot/Encoded.antt =====
-- The payloads of two kinds of control messages, from the member to the message that is sent
-- (`handleControl` of session.go).
use zev_bot.Prelude.{
  String, string_discrete, ◌≡◌, ◌∙◌, ap, sym, subst, refl, Option, none, some, inr, List, [], ◌∷◌,
  ◌++◌,
}
use zev_bot.Jid.{Jid}
use zev_bot.Bot.Messages.{
  SendMessagePayload, EditMessagePayload, Json, Value, object, text_value, decode_send_message,
  decode_edit_message, send_message, edit_message, string_member, pointer_member, members,
}
use zev_bot.Bot.Control.{
  Client, acked, message_of, parsed, handle_kind, handle_send_message, handle_edit_message,
  handle_control,
}
use zev_bot.Bot.Asked.{spelled, Reported, message_of-spelled, acked-Reported}

module _ (client : Client) where
  open client use {
    World, Built, parse_jid, new_user_jid, build_reaction, build_edit, build_revoke, send,
    disconnect_client, logout_client, is_connected, is_logged_in,
  }

  abbrev pointer : String → Option String → List (String × Value)
  pointer name none = []
  pointer name (some s) = (name, text_value s) ∷ []

  -- The payload as a client of the bot writes it, without the members that it leaves out.
  abbrev pub encode_send_message : SendMessagePayload → Json
  encode_send_message p = object (
      ("to", text_value p.to) ∷ ("text", text_value p.text) ∷ pointer "quote_id" p.quote_id
      ++ pointer "quote_sender" p.quote_sender)

  pub decode_send_message-encode_send_message :
      (to text : String) (quote_id quote_sender : Option String)
      → (let p : SendMessagePayload = record {
        to = to;
        text = text;
        quote_id = quote_id;
        quote_sender = quote_sender;
      } in
          decode_send_message (some (encode_send_message p)) ≡ some p)
  unfolding decode_send_message members string_member pointer_member string_discrete
  decode_send_message-encode_send_message to text none none = refl
  decode_send_message-encode_send_message to text none (some s) = refl
  decode_send_message-encode_send_message to text (some q) none = refl
  decode_send_message-encode_send_message to text (some q) (some s) = refl

  -- A send_message with the members of a payload, whose `to` is a JID, sends one message to that JID: the
  -- text, quoting the message and the sender where the payload has both. The answer has the id of the
  -- request and tells whether the call failed and why, and the client is as the call left it.
  pub handle_control-encode_send_message :
      (id : String) (p : SendMessagePayload) (jid : Jid) (w : World)
      → parse_jid p.to ≡ inr jid
      → Reported client id (send jid (spelled client p.text p.quote_id p.quote_sender) w) (
          handle_control client
            (record { kind = send_message; id = id; payload = some (encode_send_message p) })
            w)
  unfolding handle_kind handle_send_message parsed
  handle_control-encode_send_message id p jid w e =
      subst (Reported client id (send jid (spelled client p.text p.quote_id p.quote_sender) w))
        (ap (λ m. acked client id (send jid m w)) (sym (message_of-spelled client p)) ∙ sym handled)
        (acked-Reported client id _)
    where
      handled :
          handle_control client
            (record { kind = send_message; id = id; payload = some (encode_send_message p) })
            w
          ≡ acked client id (send jid (message_of client p) w)
      handled = rw (
        decode_send_message-encode_send_message p.to p.text p.quote_id p.quote_sender,
        handle_kind,
        handle_send_message,
        parsed,
        e,
      )

  -- What an edit_message sends, and what it is answered, does not depend on its new text: the message
  -- that the client edits gets an empty one.
  pub handle_edit_message-new_text :
      (id text : String) (payload other : Option Json) (p : EditMessagePayload) (w : World)
      → decode_edit_message payload ≡ some p
      → decode_edit_message other ≡ some (record p { new_text = text })
      → handle_control client (record { kind = edit_message; id = id; payload = payload }) w
        ≡ handle_control client (record { kind = edit_message; id = id; payload = other }) w
  unfolding handle_kind handle_edit_message
  handle_edit_message-new_text id text payload other p w e h = rw (e, h, handle_kind) refl
