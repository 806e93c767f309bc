-- ===== src/Bot/Asked.antt =====
-- What a control message asks of the client, and what is told of it (`handleControl` of session.go).
use zev_bot.Prelude.{
  String, string_discrete, arith, ◌≢◌, true, ◌≡◌, refl, Option, none, some, inl, inr, ◌⊎◌, false,
}
use zev_bot.Jid.{Jid, empty_jid}
use zev_bot.Bot.Messages.{
  SendMessagePayload, EventMessage, ack, result, decode_send_reaction, decode_revoke_message, Json,
  ack_event, decode_send_message, decode_edit_message, send_message, send_reaction, edit_message,
  revoke_message, disconnect, logout, get_status, status, state, ControlType,
}
use zev_bot.Bot.Control.{Message, conversation, quoted, built, Client, Handled, acked, message_of}

-- A call that the bot makes to the client on behalf of a control message.
pub data Call (J M : Type 0) : Type 0 where
  call_send : J → M → Call J M
  call_disconnect call_logout : Call J M

-- The answer `evt` to the message `id`: it went well, or why it did not. An empty text is left out.
abbrev pub Reports : String → Option String → EventMessage → Type 0
Reports id none evt = evt ≡ record { kind = ack; id = some id; payload = result true none }
Reports id (some why) evt =
    (why ≢ "" → evt ≡ record { kind = ack; id = some id; payload = result false (some why) })
    × (why ≡ "" → evt ≡ record { kind = ack; id = some id; payload = result false none })

pub ack_event-Reports : (id why : String) → Reports id (some why) (ack_event id false why)
unfolding ack_event
ack_event-Reports id why = (λ n. ground (arith, n), λ e. ground (arith, e))

abbrev chain : {A B : Type 0} → Option A → (A → Option B) → Option B
chain none k = none
chain (some a) k = k a

abbrev right : {A : Type 0} → String ⊎ A → Option A
right (inl e) = none
right (inr a) = some a

module _ (client : Client) where
  open client use {
    World, Built, parse_jid, new_user_jid, build_reaction, build_edit, build_revoke, send,
    disconnect_client, logout_client, is_connected, is_logged_in,
  }

  abbrev pub make : Call Jid (Message Built) → World → Option String × World
  make (call_send j m) w = send j m w
  make call_disconnect w = (none, disconnect_client w)
  make call_logout w = logout_client w

  -- The message that a payload spells: quoting where it names a message and its sender.
  abbrev pub spelled : String → Option String → Option String → Message Built
  spelled text (some quote) (some sender) = quoted text quote sender
  spelled text _ _ = conversation text

  -- The sender that a reaction is for: nobody where it is not given.
  abbrev named : Option String → Option Jid
  named none = some empty_jid
  named (some s) = right (parse_jid s)

  abbrev pub revoked : Option String → Jid
  revoked none = empty_jid
  revoked (some user) = new_user_jid user

  -- The call that a control message asks for; none where its payload or a JID in it is not valid, and
  -- where its kind asks for none.
  abbrev pub wanted : ControlType → Option Json → Option (Call Jid (Message Built))
  wanted send_message payload = chain (decode_send_message payload) λ p.
      chain (right (parse_jid p.to))
        λ j. some (call_send j (spelled p.text p.quote_id p.quote_sender))
  wanted send_reaction payload = chain (decode_send_reaction payload) λ p.
      chain (right (parse_jid p.to)) λ j.
        chain (named p.sender)
          λ sender. some (call_send j (built (build_reaction j sender p.message_id p.emoji)))
  wanted edit_message payload = chain (decode_edit_message payload) λ p.
      chain (right (parse_jid p.to))
        λ j. some (call_send j (built (build_edit j p.message_id (conversation ""))))
  wanted revoke_message payload = chain (decode_revoke_message payload) λ p.
      chain (right (parse_jid p.to))
        λ j. some (call_send j (built (build_revoke j (revoked p.original_sender) p.message_id)))
  wanted disconnect payload = some call_disconnect
  wanted logout payload = some call_logout
  wanted _ payload = none

  -- The answer to a message and the client after it: the call that it asks for, with its result; its
  -- refusal, where it asks for none, with the client as it was; or the status.
  pub data Replied (kind : ControlType) (payload : Option Json) (id : String) (w : World)
      : Handled client → Type 0 where
    called :
        (c : Call Jid (Message Built)) (evt : EventMessage) (r : Option String × World)
        → wanted kind payload ≡ some c
        → make c w ≡ r
        → Reports id r.0 evt
        → Replied kind payload id w (evt, r.1)
    refusal :
        (why : Option String)
        → wanted kind payload ≡ none
        → kind ≢ get_status
        → Replied kind payload id w
            (record { kind = ack; id = some id; payload = result false why }, w)
    reported :
        kind ≡ get_status
        → Replied kind payload id w (
          record { kind = status; id = some id; payload = state (is_connected w) (is_logged_in w) },
          w,
        )

  pub message_of-spelled :
      (p : SendMessagePayload) → message_of client p ≡ spelled p.text p.quote_id p.quote_sender
  unfolding message_of
  message_of-spelled p = ground arith

  -- An answer, and the client after it, that report the result of a call.
  abbrev pub Reported : String → Option String × World → Handled client → Type 0
  Reported id r h = Reports id r.0 h.0 × (h.1 ≡ r.1)

  pub acked-Reported : (id : String) (r : Option String × World) → Reported id r (acked client id r)
  unfolding ack_event string_discrete
  acked-Reported id (none, w) = (refl, refl)
  acked-Reported id (some why, w) = (ack_event-Reports id why, refl)
