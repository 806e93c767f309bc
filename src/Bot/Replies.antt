-- ===== src/Bot/Replies.antt =====
-- What a control message is answered with, and what it does to the client (`handleControl` of
-- session.go).
use zev_bot.Prelude.{
  String, string_discrete, arith, ◌≢◌, ◌≡◌, refl, Option, none, some, inl, inr, ◌⊎◌,
}
use zev_bot.Jid.{Jid, empty_jid}
use zev_bot.Bot.Messages.{
  ControlMessage, SendMessagePayload, EditMessagePayload, RevokeMessagePayload, SendReactionPayload,
  decode_send_reaction, decode_revoke_message, Json, ack_event, decode_send_message,
  decode_edit_message, send_message, send_reaction, edit_message, revoke_message, disconnect,
  logout, get_status, unknown, ControlType,
}
use zev_bot.Bot.Control.{
  original_sender_jid, refused, Message, conversation, built, Client, Handled, acked, message_of,
  parsed, proceed, sender_jid, handle_kind, handle_send_message, handle_send_reaction,
  handle_edit_message, handle_revoke_message, handle_control,
}
use zev_bot.Bot.Asked.{
  Call, call_send, call_disconnect, call_logout, make, wanted, revoked, Replied, called, refusal,
  reported, ack_event-Reports, message_of-spelled,
}

module _ (client : Client) where
  open client use {
    World, Built, parse_jid, new_user_jid, build_reaction, build_edit, build_revoke, send,
    disconnect_client, logout_client, is_connected, is_logged_in,
  }

  module _ (id : String) (w : World) where
    acked-Replied :
        (kind : ControlType) (payload : Option Json) (c : Call Jid (Message Built))
        → wanted client kind payload ≡ some c
        → Replied client kind payload id w (acked client id (make client c w))
    unfolding ack_event string_discrete
    acked-Replied kind payload c e = at (make client c w) refl
      where
        at :
            (r : Option String × World)
            → make client c w ≡ r
            → Replied client kind payload id w (acked client id r)
        at (none, w') h = called c _ (none, w') e h refl
        at (some why, w') h = called c _ (some why, w') e h (ack_event-Reports id why)

    refused-Replied :
        (kind : ControlType) (payload : Option Json) (why : String)
        → wanted client kind payload ≡ none
        → kind ≢ get_status
        → Replied client kind payload id w (refused client id why w)
    unfolding ack_event
    refused-Replied kind payload why e n = refusal _ e n

    sent_text :
        (payload : Option Json) (o : Option SendMessagePayload)
        → decode_send_message payload ≡ o
        → Replied client send_message payload id w (handle_send_message client id o w)
    unfolding handle_send_message parsed
    sent_text payload none e =
        refused-Replied send_message payload _ (ground (arith, e)) (λ q. ground (arith, q))
    sent_text payload (some p) e = at (parse_jid p.to) refl
      where
        at :
            (r : String ⊎ Jid)
            → parse_jid p.to ≡ r
            → Replied client send_message payload id w (
                proceed client id "invalid JID: " w
                  (λ j. acked client id (send j (message_of client p) w))
                  r)
        at (inl x) h =
            refused-Replied send_message payload _ (ground (arith, e, h)) (λ q. ground (arith, q))
        at (inr j) h =
            acked-Replied send_message payload (call_send j (message_of client p))
              (ground (arith, e, h, message_of-spelled client p))

    sent_reaction :
        (payload : Option Json) (o : Option SendReactionPayload)
        → decode_send_reaction payload ≡ o
        → Replied client send_reaction payload id w (handle_send_reaction client id o w)
    unfolding handle_send_reaction parsed
    sent_reaction payload none e =
        refused-Replied send_reaction payload _ (ground (arith, e)) (λ q. ground (arith, q))
    sent_reaction payload (some p) e = at (parse_jid p.to) refl
      where
        to_sender : Jid → Jid → Handled client
        to_sender j sender =
            acked client id (send j (built (build_reaction j sender p.message_id p.emoji)) w)

        from :
            (j : Jid)
            → parse_jid p.to ≡ inr j
            → (r : String ⊎ Jid) → (s : String) → p.sender ≡ some s
            → parse_jid s ≡ r
            → Replied client send_reaction payload id w
                (proceed client id "invalid sender JID: " w (to_sender j) r)
        from j h (inl x) s q k =
            refused-Replied send_reaction payload _ (ground (arith, e, h, q, k))
              (λ q. ground (arith, q))
        from j h (inr sender) s q k =
            acked-Replied send_reaction payload
              (call_send j (built (build_reaction j sender p.message_id p.emoji)))
              (ground (arith, e, h, q, k))

        by_sender :
            (j : Jid)
            → parse_jid p.to ≡ inr j
            → (s : Option String) → p.sender ≡ s
            → Replied client send_reaction payload id w (sender_jid client id s w (to_sender j))
        by_sender j h none q =
            acked-Replied send_reaction payload
              (call_send j (built (build_reaction j empty_jid p.message_id p.emoji)))
              (ground (arith, e, h, q))
        by_sender j h (some s) q = from j h (parse_jid s) s q refl

        at :
            (r : String ⊎ Jid)
            → parse_jid p.to ≡ r
            → Replied client send_reaction payload id w (
                proceed client id "invalid JID: " w
                  (λ j. sender_jid client id p.sender w (to_sender j))
                  r)
        at (inl x) h =
            refused-Replied send_reaction payload _ (ground (arith, e, h)) (λ q. ground (arith, q))
        at (inr j) h = by_sender j h p.sender refl

    sent_edit :
        (payload : Option Json) (o : Option EditMessagePayload)
        → decode_edit_message payload ≡ o
        → Replied client edit_message payload id w (handle_edit_message client id o w)
    unfolding handle_edit_message parsed
    sent_edit payload none e =
        refused-Replied edit_message payload _ (ground (arith, e)) (λ q. ground (arith, q))
    sent_edit payload (some p) e = at (parse_jid p.to) refl
      where
        at :
            (r : String ⊎ Jid)
            → parse_jid p.to ≡ r
            → Replied client edit_message payload id w (
                proceed client id "invalid JID: " w
                  (λ j.
                    acked client id
                      (send j (built (build_edit j p.message_id (conversation ""))) w))
                  r)
        at (inl x) h =
            refused-Replied edit_message payload _ (ground (arith, e, h)) (λ q. ground (arith, q))
        at (inr j) h =
            acked-Replied edit_message payload
              (call_send j (built (build_edit j p.message_id (conversation ""))))
              (ground (arith, e, h))

    sent_revocation :
        (payload : Option Json) (o : Option RevokeMessagePayload)
        → decode_revoke_message payload ≡ o
        → Replied client revoke_message payload id w (handle_revoke_message client id o w)
    unfolding handle_revoke_message parsed
    sent_revocation payload none e =
        refused-Replied revoke_message payload _ (ground (arith, e)) (λ q. ground (arith, q))
    sent_revocation payload (some p) e = at (parse_jid p.to) refl
      where
        same : original_sender_jid client p.original_sender ≡ revoked client p.original_sender
        same = ground arith

        revoke : Jid → Message Built
        revoke j =
            built (build_revoke j (original_sender_jid client p.original_sender) p.message_id)

        at :
            (r : String ⊎ Jid)
            → parse_jid p.to ≡ r
            → Replied client revoke_message payload id w
                (proceed client id "invalid JID: " w (λ j. acked client id (send j (revoke j) w)) r)
        at (inl x) h =
            refused-Replied revoke_message payload _ (ground (arith, e, h)) (λ q. ground (arith, q))
        at (inr j) h =
            acked-Replied revoke_message payload (call_send j (revoke j))
              (ground (arith, e, h, same))

    handle_kind-Replied :
        (kind : ControlType) (payload : Option Json)
        → Replied client kind payload id w (handle_kind client kind id payload w)
    unfolding handle_kind
    handle_kind-Replied send_message payload = sent_text payload _ refl
    handle_kind-Replied send_reaction payload = sent_reaction payload _ refl
    handle_kind-Replied edit_message payload = sent_edit payload _ refl
    handle_kind-Replied revoke_message payload = sent_revocation payload _ refl
    handle_kind-Replied get_status payload = reported refl
    handle_kind-Replied disconnect payload = acked-Replied disconnect payload call_disconnect refl
    handle_kind-Replied logout payload = acked-Replied logout payload call_logout refl
    handle_kind-Replied (unknown kind) payload =
        refused-Replied (unknown kind) payload _ refl (λ q. ground (arith, q))

  -- For each control message the bot gives one answer, an ack with the id of the message or the status
  -- with it. Where the message asks for a call, by its kind, payload and valid JIDs, that call is made
  -- and the answer tells whether it failed and why; where it asks for none, the client is as it was and
  -- the answer tells a failure; for get_status it is the client's state.
  pub handle_control-Replied :
      (ctrl : ControlMessage) (w : World)
      → Replied client ctrl.kind ctrl.payload ctrl.id w (handle_control client ctrl w)
  handle_control-Replied ctrl w = handle_kind-Replied ctrl.id w ctrl.kind ctrl.payload
