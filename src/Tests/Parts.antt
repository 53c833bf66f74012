-- ===== src/Tests/Parts.antt =====
-- The record inside a letter, of src/message.rs, on small inputs.
use article.Base.{◌≤◌, ◌≡◌, refl, arith, replicate, length}
use article.Base.Bytes.{Bytes, AllBytes, be_bytes, from_be}
use article.Error
use article.Error.{Error, Result, ok, err, invalid_input, authentication}
use article.Exec
use article.Format.Reader
use article.Primitives.Toy.{toy}
use article.Protocol.{max_body_len, usize_max}
use article.Identity.{new}
use article.Identity.Profile.{IsProfile}
use article.Message.{ParsedMessage, inner_bytes}
use article.Message.Parse.{parse_internal, read_fields}
use article.Message.RoundTrip.{parse_internal_sound, parse_internal-inner_bytes}
use article.Tests.{greeting, AllBytes-of_test}

abbrev message : ParsedMessage
message = record {
  sender = new toy (replicate 32 5) (replicate 32 6);
  recipient_fingerprint = replicate 32 7;
  message_id = replicate 32 8;
  body = greeting;
  signature = replicate 64 9;
}

abbrev plaintext : Bytes
plaintext =
    inner_bytes message.sender message.recipient_fingerprint message.message_id greeting
      message.signature (replicate 3 0)

parse_internal-inner_bytes_example : parse_internal toy plaintext ≡ ok message
parse_internal-inner_bytes_example =
    parse_internal-inner_bytes toy (replicate 32 5) (replicate 32 6) (replicate 32 7)
      (replicate 32 8) greeting (replicate 64 9) (replicate 3 0) refl refl refl refl refl
      (omega arith) (omega arith)

plaintext_lem : parse_internal toy plaintext ≡ ok message
unfolding parse_internal read_fields Exec.◌>>=◌ Error.◌>>=◌ Reader.byte Reader.array Reader.u32_be
    Reader.take Reader.remaining from_be be_bytes new
plaintext_lem = refl

plaintext-AllBytes : AllBytes plaintext
unfolding new be_bytes
plaintext-AllBytes = AllBytes-of_test plaintext refl

plaintext_length : length plaintext ≤ usize_max
unfolding new be_bytes
plaintext_length = omega arith

parse_internal_sound_example :
    (padding : Bytes) × (plaintext
      ≡ inner_bytes message.sender message.recipient_fingerprint message.message_id message.body
          message.signature padding)
    × (2 ≤ max_body_len)
    × (length message.recipient_fingerprint ≡ 32)
    × (length message.message_id ≡ 32)
    × (length message.signature ≡ 64)
    × IsProfile toy message.sender
parse_internal_sound_example =
    parse_internal_sound toy plaintext message plaintext-AllBytes plaintext_length plaintext_lem
