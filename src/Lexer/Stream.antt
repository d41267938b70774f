-- ===== src/Lexer/Stream.antt =====
-- src/lexer.c: `CharStream`, its reading functions, and the tests on single characters.
-- A `char` read as an `int` is sign-extended: byte b stands for itself below 128 and for b - 256
-- above. The ints that occur are the bytes 0..255 here, one for one, and EOI (-1) is 255: a byte
-- 0xFF in the input is taken for EOI, as in the C code.
use codecrafters_shell_c.Common.{
  ℕ, ◌+◌, Bool, true, false, ◌||◌, ◌==◌, leb, if◌then◌else◌, length, get_or,
}
use codecrafters_shell_c.Common.Bytes.{Bytes, isspace}

abbrev pub eoi : ℕ
eoi = 255

abbrev pub squote : ℕ
squote = 39

abbrev pub dquote : ℕ
dquote = 34

abbrev pub backslash : ℕ
backslash = 92

abbrev pub backtick : ℕ
backtick = 96

pub record CharStream : Type 0 where
  pub bytes : Bytes
  pub pos : ℕ
  pub len : ℕ

unfoldable pub cs_new : Bytes → CharStream
cs_new text = record { bytes = text; pos = 0; len = length text }

unfoldable pub cs_peek : CharStream → ℕ
cs_peek stream = if stream.pos == stream.len then eoi else get_or stream.bytes stream.pos 0

unfoldable pub cs_peek_ahead : CharStream → ℕ → ℕ
cs_peek_ahead stream n =
    let target = stream.pos + n in
    if leb stream.len target then eoi else get_or stream.bytes target 0

unfoldable pub cs_read : CharStream → ℕ × CharStream
cs_read stream =
    if stream.pos == stream.len
    then (eoi, stream)
    else (get_or stream.bytes stream.pos 0, record stream { pos = stream.pos + 1 })

-- A `cs_read` whose result is not used.
unfoldable pub skip : CharStream → CharStream
unfolding cs_read
skip stream = (cs_read stream).1

unfoldable pub cs_eoi : CharStream → Bool
unfolding cs_peek
cs_eoi stream = cs_peek stream == eoi

unfoldable pub cs_match : CharStream → ℕ → Bool × CharStream
unfolding cs_peek skip
cs_match stream c = if cs_peek stream == c then (true, skip stream) else (false, stream)

unfoldable pub cs_reset : CharStream → CharStream
cs_reset stream = record stream { pos = 0 }

unfoldable pub isoperator : ℕ → Bool
isoperator c =
    c == b'|'
    || c == b'&'
    || c == b';'
    || c == b'('
    || c == b')'
    || c == b'{'
    || c == b'}'
    || c == b'<'
    || c == b'>'

pub data QuoteFlag : Type 0 where
  unquoted single_quoted double_quoted : QuoteFlag

unfoldable pub toggle_flag : ℕ → QuoteFlag → QuoteFlag
toggle_flag c unquoted =
    if c == squote then single_quoted else if c == dquote then double_quoted else unquoted
toggle_flag c single_quoted = if c == squote then unquoted else single_quoted
toggle_flag c double_quoted = if c == dquote then unquoted else double_quoted

unfoldable pub lx_end_of_token : ℕ → QuoteFlag → Bool
lx_end_of_token c unquoted = isspace c || c == eoi
lx_end_of_token c single_quoted = c == eoi
lx_end_of_token c double_quoted = c == eoi
