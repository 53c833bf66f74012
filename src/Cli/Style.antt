-- ===== src/Cli/Style.antt =====
-- `TerminalStyle` of src/cli.rs.
use article.Base.{[], Bool, true, false, none, some, ◌∷◌, ◌++◌, ◌&&◌, if◌then◌else◌, Option}
use article.Base.Bytes.{Bytes, utf8}
use article.Cli.Terminal.{Console}

pub record TerminalStyle : Type 0 where
  pub color : Bool

abbrev is_none : Option Bytes → Bool
is_none none = true
is_none (some value) = false

-- `TerminalStyle::detect`
unfoldable pub detect : Console → TerminalStyle
detect c = record { color = c.stderr_terminal && is_none c.environment.no_color }

abbrev escape : Bytes
escape = 0x1b ∷ (b'[' ∷ [])

unfoldable pub paint : TerminalStyle → Bytes → Bytes → Bytes
paint style code text =
    if style.color
    then escape ++ (code ++ (b'm' ∷ (text ++ (escape ++ (b'0' ∷ (b'm' ∷ []))))))
    else text

abbrev pub bold : TerminalStyle → Bytes → Bytes
bold style text = paint style (utf8 "1") text

abbrev pub dim : TerminalStyle → Bytes → Bytes
dim style text = paint style (utf8 "2") text

abbrev pub success : TerminalStyle → Bytes
success style = paint style (utf8 "32") (utf8 "✓")

abbrev pub warning : TerminalStyle → Bytes
warning style = paint style (utf8 "33") (utf8 "!")

abbrev pub failure : TerminalStyle → Bytes
failure style = paint style (utf8 "31") (utf8 "×")

abbrev pub highlighted : TerminalStyle → Bytes → Bytes
highlighted style text = paint style (utf8 "36;1") text
