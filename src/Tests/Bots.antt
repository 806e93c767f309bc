-- ===== src/Tests/Bots.antt =====
-- The theorems on control messages, with a client that logs the texts it sends.
use Prim.Native.String.{◌++◌ as append}
use zev_bot.Prelude.{
  String, ◌≡◌, refl, Option, none, some, inl, inr, List, [], ◌∷◌, true, false, str_eq,
  if◌then◌else◌, string_discrete,
}
use zev_bot.Jid.{Jid}
use zev_bot.Bot.{
  Client, Message, conversation, quoted, built, ControlMessage, SendMessagePayload, send_message,
  edit_message, object, text_value, handle_control, Json, decode_edit_message, members,
  string_member,
}
use zev_bot.Bot.Asked.{Replied, Reported}
use zev_bot.Bot.Replies.{handle_control-Replied}
use zev_bot.Bot.Encoded.{
  encode_send_message, handle_control-encode_send_message, handle_edit_message-new_text,
}

abbrev sent_text : Message String → String
sent_text (conversation t) = t
sent_text (quoted t i s) = append t (append ">" (append i (append ">" s)))
sent_text (built t) = t

abbrev jid : String → Jid
jid user = record { user = user; device = 0; server = "s" }

abbrev pub log : Client
log = record {
  World = List String;
  Built = String;
  parse_jid = λ s. if str_eq s "" then inl "no server" else inr (jid s);
  new_user_jid = jid;
  build_reaction = λ to sender message emoji. emoji;
  build_edit = λ to message m. sent_text m;
  build_revoke = λ to sender message. "revoked";
  send = λ to m w. (none, sent_text m ∷ w);
  disconnect_client = λ w. w;
  logout_client = λ w. (some "not logged in", w);
  is_connected = λ w. true;
  is_logged_in = λ w. false;
}

abbrev hello : SendMessagePayload
hello = record { to = "1"; text = "hello"; quote_id = some "q"; quote_sender = none }

abbrev answer : SendMessagePayload
answer = record { to = "1"; text = "hello"; quote_id = some "q"; quote_sender = some "2" }

abbrev pub request : ControlMessage
request = record { kind = send_message; id = "7"; payload = some (encode_send_message log hello) }

handle_control-Replied_example :
    Replied log send_message
      (some (encode_send_message log hello))
      "7"
      []
      (handle_control log request [])
handle_control-Replied_example = handle_control-Replied log request []

-- The log client keeps what it sends, the parts of a quote too.
handle_control-encode_send_message_example :
    Reported log "7"
      (none, "hello>q>2" ∷ [])
      (handle_control log
        (record { kind = send_message; id = "7"; payload = some (encode_send_message log answer) })
        [])
unfolding string_discrete
handle_control-encode_send_message_example =
    handle_control-encode_send_message log "7" answer (jid "1") [] refl

abbrev edit_to : String → Option Json
edit_to text = some (
    object (
      ("to", text_value "1") ∷ ("message_id", text_value "m") ∷ ("new_text", text_value text) ∷ []))

handle_edit_message-new_text_example :
    handle_control log (record { kind = edit_message; id = "8"; payload = edit_to "a" }) []
    ≡ handle_control log (record { kind = edit_message; id = "8"; payload = edit_to "b" }) []
unfolding decode_edit_message members string_member string_discrete
handle_edit_message-new_text_example =
    handle_edit_message-new_text log "8" "b" (edit_to "a") (edit_to "b")
      (record { to = "1"; message_id = "m"; new_text = "a" }) [] refl refl
