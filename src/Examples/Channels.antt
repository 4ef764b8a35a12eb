-- ===== src/Examples/Channels.antt =====
-- Secrets, frames and channels.
use agent_send.Base.{
  ℕ, text, Bytes, List, [], ◌∷◌, ◌≡◌, refl, arith, is_blank, text_eq, All, length,
}
use agent_send.Base.Result.{ok, err}
use agent_send.Peer.Message.{PeerMessage, hello, transfer_ready, validate, wrong_peer}
use agent_send.Peer.Secret.{PairingSecret, IsSecret, to_hex, from_hex, from_hex-to_hex}
use agent_send.Peer.Frame.{nonce, associated_data, key_info, to_be_bytes, with_length}
use agent_send.Peer.Frame.Binding.{FitsWidths, associated_data-injective}
use agent_send.Peer.Channel.{
  EncryptedPeerFrame, SecurePeerChannel, new, seal, open_frame, derive_key,
}
use agent_send.Peer.Channel.Replay.{
  IsAccepted, open_frame-IsAccepted, accept_all, accept_all-upto, upto,
}
use agent_send.Peer.Channel.Delivery.{InStep, new-InStep, deliver, relay, relay-eq-ok}
use agent_send.Examples.Wire.{toy, toy-RoundTrips, toy-NeverFails}

abbrev repeat32 : ℕ → Bytes
repeat32 b =
    b ∷ b ∷ b ∷ b ∷ b ∷ b ∷ b ∷ b ∷ b ∷ b ∷ b ∷ b ∷ b ∷ b ∷ b ∷ b ∷ b ∷ b ∷ b ∷ b ∷ b ∷ b ∷ b ∷ b
    ∷ b ∷ b ∷ b ∷ b ∷ b ∷ b ∷ b ∷ b ∷ []

abbrev pub key : PairingSecret
key = record { bytes = repeat32 171 }

pub key-IsSecret : IsSecret key
key-IsSecret = record { size = refl; in_range = ground arith }

shown : from_hex (to_hex key) ≡ ok key
shown = from_hex-to_hex key key-IsSecret

-- Two devices that share the key.
abbrev pub desk : SecurePeerChannel
desk = record {
  local_id = text "desk";
  peer_id = text "phone";
  send_key = derive_key toy (text "desk") (text "phone") key;
  receive_key = derive_key toy (text "phone") (text "desk") key;
  next_send_sequence = 0;
  next_receive_sequence = 0;
}

abbrev pub phone : SecurePeerChannel
phone = record {
  local_id = text "phone";
  peer_id = text "desk";
  send_key = derive_key toy (text "phone") (text "desk") key;
  receive_key = derive_key toy (text "desk") (text "phone") key;
  next_send_sequence = 0;
  next_receive_sequence = 0;
}

desk_made : new toy (text "desk") (record { id = text "phone"; secret = key }) ≡ ok desk
unfolding new is_blank text_eq
desk_made = refl

phone_made : new toy (text "phone") (record { id = text "desk"; secret = key }) ≡ ok phone
unfolding new is_blank text_eq
phone_made = refl

pub in_step : InStep desk phone
in_step = (new-InStep toy (text "desk") (text "phone") key desk phone desk_made phone_made).0

abbrev messages : List PeerMessage
messages = hello 1 ∷ transfer_ready (text "t1") ∷ []

messages_pass : All (λ m. validate m ≡ ok tt) messages
unfolding validate is_blank
messages_pass = (refl, (refl, tt))

relay-eq-ok_example : relay toy messages desk phone ≡ ok messages
relay-eq-ok_example =
    relay-eq-ok toy toy-RoundTrips toy-NeverFails messages desk phone in_step messages_pass
      (omega arith)

-- A frame that the desk seals, and one that claims another sender.
abbrev frame : EncryptedPeerFrame
frame = record {
  version = 1;
  sender_id = text "desk";
  recipient_id = text "phone";
  sequence = 0;
  ciphertext = 0 ∷ [];
}

refused : (open_frame toy frame desk).0 ≡ err wrong_peer
unfolding open_frame text_eq
refused = refl

accept_all-upto_example :
    (accept_all toy (frame ∷ frame ∷ []) phone).0
    ≡ upto 0 (length (accept_all toy (frame ∷ frame ∷ []) phone).0)
accept_all-upto_example = accept_all-upto toy (frame ∷ frame ∷ []) phone

abbrev number : ℕ
number = 258

fits : FitsWidths 1 1 (text "desk") (text "desk") (text "phone") (text "phone") number number
fits = record {
  versions = (omega arith, omega arith);
  senders = (omega arith, omega arith);
  recipients = (omega arith, omega arith);
  numbers = (omega arith, omega arith);
}

abbrev version : ℕ
version = 1

associated_data-injective_example :
    (version ≡ version)
    × (text "desk" ≡ text "desk")
    × (text "phone" ≡ text "phone")
    × (number ≡ number)
associated_data-injective_example =
    associated_data-injective 1 1 (text "desk") (text "desk") (text "phone") (text "phone") number
      number fits refl

-- The frame that the desk makes of its first message.
abbrev greeting : EncryptedPeerFrame
greeting = record frame { ciphertext = 252 ∷ 0 ∷ 1 ∷ [] }

sealed : (seal toy (hello 1) desk).0 ≡ ok greeting
unfolding seal validate derive_key nonce associated_data key_info to_be_bytes with_length
sealed = refl

opens : (open_frame toy greeting phone).0 ≡ ok (hello 1)
opens = (deliver toy toy-RoundTrips desk phone (hello 1) greeting in_step sealed).0

open_frame-IsAccepted_example :
    IsAccepted phone greeting (hello 1) (open_frame toy greeting phone).1
open_frame-IsAccepted_example = open_frame-IsAccepted toy phone greeting opens
