-- ===== src/Contact.antt =====
-- src/contact.rs: contacts and their names.
pub mod Names
use article.Base.{ℕ, Bool, ◌&&◌, ◌||◌, ◌==◌, leb, not, length, all}
use article.Base.Bytes.{Bytes}
use article.Identity.{PublicProfile}

pub record Contact : Type 0 where
  pub alias : Bytes
  pub profile : PublicProfile

-- `u8::is_ascii_alphanumeric`
unfoldable pub is_alphanumeric : ℕ → Bool
is_alphanumeric c =
    leb b'0' c && leb c b'9' || (leb b'A' c && leb c b'Z' || leb b'a' c && leb c b'z')

unfoldable pub is_alias_byte : ℕ → Bool
unfolding is_alphanumeric
is_alias_byte byte = is_alphanumeric byte || (byte == b'-' || byte == b'_')

unfoldable pub validate_alias : Bytes → Bool
unfolding is_alias_byte
validate_alias alias = not (length alias == 0) && leb (length alias) 64 && all is_alias_byte alias
