-- ===== src/Bot/Messages.antt =====
-- The control and event messages, and how payloads are decoded (messages.go). The payload of a control
-- message is read with the message itself, as a raw part of a valid JSON text: none where it is missing.
use zev_bot.Prelude.{String, Option, none, some, List, [], ◌∷◌, Bool, if◌then◌else◌, str_eq}

-- The value of a member, as far as the payload structs tell one from another.
pub data Value : Type 0 where
  null : Value
  text_value : String → Value
  other : Value

pub data Json : Type 0 where
  null_payload : Json
  object : List (String × Value) → Json
  other_payload : Json

pub data ControlType : Type 0 where
  send_message send_reaction edit_message revoke_message disconnect logout get_status : ControlType
  unknown : String → ControlType

pub data EventType : Type 0 where
  pair_qr pair_code pair_success pair_error logged_out : EventType
  disconnected connected incoming_message ack status : EventType

pub record ControlMessage : Type 0 where
  pub kind : ControlType
  pub id : String
  pub payload : Option Json

pub data Payload : Type 0 where
  empty : Payload
  code : String → Payload
  reason : String → Payload
  message : String → String → String → Payload  -- from, text and message_id
  result : Bool → Option String → Payload  -- ok and error
  state : Bool → Bool → Payload  -- connected and logged_in

pub record EventMessage : Type 0 where
  pub kind : EventType
  pub id : Option String
  pub payload : Payload

unfoldable pub ack_event : String → Bool → String → EventMessage
ack_event id ok msg = record {
  kind = ack;
  id = some id;
  payload = result ok (if str_eq msg "" then none else some msg);
}

unfoldable pub simple_event : EventType → EventMessage
simple_event kind = record { kind = kind; id = none; payload = empty }

pub record SendMessagePayload : Type 0 where
  pub to : String
  pub text : String
  pub quote_id : Option String
  pub quote_sender : Option String

pub record SendReactionPayload : Type 0 where
  pub to : String
  pub message_id : String
  pub sender : Option String
  pub emoji : String

pub record EditMessagePayload : Type 0 where
  pub to : String
  pub message_id : String
  pub new_text : String

pub record RevokeMessagePayload : Type 0 where
  pub to : String
  pub message_id : String
  pub original_sender : Option String

-- `json.Unmarshal` into a struct: the last member of a name wins, `null` leaves a string as it was and
-- clears a pointer, and a member of another type is an error. Names are matched exactly.
unfoldable pub string_member : String → String → List (String × Value) → Option String
string_member name acc [] = some acc
string_member name acc ((k, text_value s) ∷ ms) =
    string_member name (if str_eq k name then s else acc) ms
string_member name acc ((k, null) ∷ ms) = string_member name acc ms
string_member name acc ((k, j) ∷ ms) =
    let rest = string_member name acc ms in if str_eq k name then none else rest

unfoldable pub pointer_member :
    String → Option String → List (String × Value) → Option (Option String)
pointer_member name acc [] = some acc
pointer_member name acc ((k, text_value s) ∷ ms) =
    pointer_member name (if str_eq k name then some s else acc) ms
pointer_member name acc ((k, null) ∷ ms) =
    pointer_member name (if str_eq k name then none else acc) ms
pointer_member name acc ((k, j) ∷ ms) =
    let rest = pointer_member name acc ms in if str_eq k name then none else rest

-- The members of a payload: a missing payload is an error, and `null` sets nothing.
unfoldable pub members : Option Json → Option (List (String × Value))
members (some (object ms)) = some ms
members (some null_payload) = some []
members _ = none

module _ {A : Type 0} where
  infixl 10 ◌>>=◌
  abbrev pub ◌>>=◌ : {B : Type 0} → Option A → (A → Option B) → Option B
  none >>= k = none
  some a >>= k = k a

unfoldable pub decode_send_message : Option Json → Option SendMessagePayload
unfolding members string_member pointer_member
decode_send_message payload = do
  ms ← members payload
  to ← string_member "to" "" ms
  text ← string_member "text" "" ms
  quote_id ← pointer_member "quote_id" none ms
  quote_sender ← pointer_member "quote_sender" none ms
  some (record { to = to; text = text; quote_id = quote_id; quote_sender = quote_sender })

unfoldable pub decode_send_reaction : Option Json → Option SendReactionPayload
unfolding members string_member pointer_member
decode_send_reaction payload = do
  ms ← members payload
  to ← string_member "to" "" ms
  message_id ← string_member "message_id" "" ms
  sender ← pointer_member "sender" none ms
  emoji ← string_member "emoji" "" ms
  some (record { to = to; message_id = message_id; sender = sender; emoji = emoji })

unfoldable pub decode_edit_message : Option Json → Option EditMessagePayload
unfolding members string_member
decode_edit_message payload = do
  ms ← members payload
  to ← string_member "to" "" ms
  message_id ← string_member "message_id" "" ms
  new_text ← string_member "new_text" "" ms
  some (record { to = to; message_id = message_id; new_text = new_text })

unfoldable pub decode_revoke_message : Option Json → Option RevokeMessagePayload
unfolding members string_member pointer_member
decode_revoke_message payload = do
  ms ← members payload
  to ← string_member "to" "" ms
  message_id ← string_member "message_id" "" ms
  original_sender ← pointer_member "original_sender" none ms
  some (record { to = to; message_id = message_id; original_sender = original_sender })
