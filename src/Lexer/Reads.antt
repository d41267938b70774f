-- ===== src/Lexer/Reads.antt =====
-- src/lexer.c: reading moves a stream forward within its buffer; operators.
use codecrafters_shell_c.Common.{ℕ, ◌+◌, ◌≤◌, ◌<◌, ◌≡◌, refl, ◌≢◌, arith}
use codecrafters_shell_c.Lexer.Stream.{CharStream, cs_peek, cs_peek_ahead, skip, eoi}
use codecrafters_shell_c.Lexer.Scan.{doubled, operator_switch, lx_scan_operator}
use codecrafters_shell_c.Tokens.{
  TokenType, tok_or, tok_pipe, tok_and, tok_amp, tok_redir_in, tok_redir_out, tok_redir_append,
  tok_redir_heredoc,
}

-- `t` is `s` read further, and still within the buffer.
pub record Reads (s t : CharStream) : Type 0 where
  pub same_bytes : t.bytes ≡ s.bytes
  pub same_len : t.len ≡ s.len
  pub forward : s.pos ≤ t.pos
  pub within : t.pos ≤ t.len

pub skip-Reads : (s : CharStream) → s.pos ≤ s.len → Reads s (skip s)
unfolding skip
skip-Reads s h = ground arith

pub skip_lt : (s : CharStream) → s.pos < s.len → (skip s).pos ≡ s.pos + 1
unfolding skip
skip_lt s h = ground arith

pub peek_ahead_lt : (s : CharStream) (n : ℕ) → cs_peek_ahead s n ≢ eoi → s.pos + n < s.len
unfolding cs_peek_ahead
peek_ahead_lt s n h = ground arith

pub peek_lt : (s : CharStream) → s.pos ≤ s.len → cs_peek s ≢ eoi → s.pos < s.len
unfolding cs_peek
peek_lt s w h = ground arith

pub Reads-trans : {s t u : CharStream} → Reads s t → Reads t u → Reads s u
Reads-trans h k = record {
  same_bytes = cc (h.same_bytes, k.same_bytes);
  same_len = omega (arith, h.same_len, k.same_len);
  forward = omega (arith, h.forward, k.forward);
  within = k.within;
}

doubled-Reads :
    (s : CharStream) (c end : ℕ) (twice once : TokenType)
    → c ≢ eoi
    → s.pos < s.len
    → Reads s (doubled s c end twice once).1 × ((doubled s c end twice once).1.pos < s.len)
unfolding doubled
doubled-Reads s c end twice once ne h = ground (arith, skip-Reads s, skip_lt s, peek_ahead_lt s 1)

operator_switch-Reads :
    (s : CharStream) (c end : ℕ)
    → s.pos < s.len
    → Reads s (operator_switch s c end).1 × ((operator_switch s c end).1.pos < s.len)
unfolding operator_switch
operator_switch-Reads s c end h = ground (
  arith,
  doubled-Reads s c end tok_or tok_pipe,
  doubled-Reads s c end tok_and tok_amp,
  doubled-Reads s c end tok_redir_heredoc tok_redir_in,
  doubled-Reads s c end tok_redir_append tok_redir_out,
)

-- An operator's scan takes its first character at least.
pub lx_scan_operator-Reads :
    (s : CharStream) (c end : ℕ)
    → s.pos < s.len
    → Reads s (lx_scan_operator s c end).1 × (s.pos < (lx_scan_operator s c end).1.pos)
unfolding lx_scan_operator
lx_scan_operator-Reads s c end h =
    let switch = operator_switch-Reads s c end h in
    let s' = (operator_switch s c end).1 in
    ground
      (arith, switch, skip-Reads s', skip_lt s', Reads-trans switch.0 (skip-Reads s' (omega arith)))

pub Reads-refl : (s : CharStream) → s.pos ≤ s.len → Reads s s
Reads-refl s h = record { same_bytes = refl; same_len = refl; forward = omega arith; within = h }
