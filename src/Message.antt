-- ===== src/Message.antt =====
-- src/message.rs: sealing and opening letters.
pub mod Parse
pub mod Serialize
pub mod RoundTrip
pub mod Seal
pub mod Open
pub mod Sealing
pub mod Opening
pub mod Envelope
pub mod Delivery
pub mod Trust
use article.Base.{◌++◌, ◌∷◌, length}
use article.Base.Bytes.{Bytes, be_bytes}
use article.Protocol.{protocol_version, crypto_suite_classical_v1}
use article.Identity.{PublicProfile}

pub data SenderTrust : Type 0 where
  pinned : Bytes → SenderTrust
  mismatch : Bytes → SenderTrust
  unknown : SenderTrust

pub record OpenedLetter : Type 0 where
  pub body : Bytes
  pub message_id : Bytes
  pub sender : PublicProfile
  pub sender_trust : SenderTrust

pub record ParsedMessage : Type 0 where
  pub sender : PublicProfile
  pub recipient_fingerprint : Bytes
  pub message_id : Bytes
  pub body : Bytes
  pub signature : Bytes

-- The fields in the order in which they are written.
abbrev pub inner_bytes : PublicProfile → Bytes → Bytes → Bytes → Bytes → Bytes → Bytes
inner_bytes sender recipient_fingerprint message_id body signature padding =
    protocol_version
    ∷ (crypto_suite_classical_v1
        ∷ (sender.identity_public
            ++ (sender.agreement_public
                ++ (recipient_fingerprint
                    ++ (message_id
                        ++ (be_bytes 4 (length body) ++ (body ++ (signature ++ padding))))))))
