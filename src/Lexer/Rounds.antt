-- ===== src/Lexer/Rounds.antt =====
-- src/lexer.c: each round of `lx_scan`'s main loop takes at least one character, unless it returns.
use codecrafters_shell_c.Common.{
  ℕ, zero, suc, ◌+◌, ◌≤◌, ◌<◌, ◌≡◌, refl, ◌≢◌, ◌⊎◌, inl, inr, Bool, true, false, ◌||◌, ◌==◌, arith,
  Bool-cases, if◌then◌else◌,
}
use codecrafters_shell_c.Common.Outcome.{ok, Ends, Ends-bind, Ends-if}
use codecrafters_shell_c.Lexer.Stream.{
  CharStream, cs_peek, cs_peek_ahead, skip, eoi, squote, dquote, backslash, backtick, isoperator,
  QuoteFlag, unquoted, single_quoted, double_quoted, toggle_flag,
}
use codecrafters_shell_c.Lexer.Scan.{
  Scan, Turn, returns, breaks, tests, read_char, end_round, cmdsub_loop, after_cmdsub, scan_cmdsub,
  scan_dollar, scan_backslash, return_operator, scan_unquoted, scan_quoted, scan_flag, scan_round,
}
use codecrafters_shell_c.Tokens.{tok_err}
use codecrafters_shell_c.Lexer.Reads.{
  Reads, Reads-trans, skip-Reads, skip_lt, peek_ahead_lt, peek_lt, lx_scan_operator-Reads,
}

-- A round that begins at `s`, in a token that begins at `p`: where it ends the loop it has taken
-- something of the token, or it reports an error; where it goes to the loop's test it has taken
-- something, and it has looked at the character that comes next.
abbrev pub Turned : ℕ → Scan → Turn → Type 0
Turned p s (returns type s') = Reads s.stream s'.stream × ((type ≡ tok_err) ⊎ (p < s'.stream.pos))
Turned p s (breaks s') = Reads s.stream s'.stream × (s.stream.pos < s'.stream.pos)
Turned p s (tests s') =
    Reads s.stream s'.stream
    × (s.stream.pos < s'.stream.pos)
    × (s'.nextc ≢ eoi → s'.stream.pos < s.stream.len)

end_round-Turned :
    (p c : ℕ) (s : Scan)
    → s.stream.pos < s.stream.len
    → (s.nextc ≢ eoi → s.stream.pos + 1 < s.stream.len)
    → Turned p s (end_round c s)
unfolding end_round
end_round-Turned p c s h look = ground (arith, skip-Reads s.stream, skip_lt s.stream)

cmdsub_loop-Ends :
    (f depth : ℕ) (o : CharStream) (s : Scan)
    → s.stream.len < f + s.stream.pos
    → Reads o s.stream
    → Ends (λ r. Reads o r.1.stream) (cmdsub_loop f depth s)
unfolding cmdsub_loop
cmdsub_loop-Ends f zero o s h r = r
cmdsub_loop-Ends zero (suc depth) o s h r = omega (arith, r.within)
cmdsub_loop-Ends (suc f) (suc depth) o s h r = ground (
  arith,
  peek_lt s.stream r.within,
  skip_lt s.stream,
  skip-Reads s.stream,
  Reads-trans r (skip-Reads s.stream r.within),
  cmdsub_loop-Ends f depth o (read_char s),
  cmdsub_loop-Ends f (suc depth) o (read_char s),
  cmdsub_loop-Ends f (suc (suc depth)) o (read_char s),
)

scan_cmdsub-Turned :
    (p : ℕ) (o s : Scan)
    → Reads o.stream s.stream
    → o.stream.pos < s.stream.pos
    → Ends (Turned p o) (scan_cmdsub s)
unfolding scan_cmdsub after_cmdsub
scan_cmdsub-Turned p o s r lt =
    Ends-bind (Turned p o) (cmdsub_loop (suc s.stream.len) 1 s) _
      (cmdsub_loop-Ends (suc s.stream.len) 1 s.stream s (omega arith)
        (record { same_bytes = refl; same_len = refl; forward = omega arith; within = r.within }))
      after
  where
    after : (e : Bool × Scan) → Reads s.stream e.1.stream → Ends (Turned p o) (ok (after_cmdsub e))
    after (true, t) q = (
      Reads-trans r q,
      omega (arith, q.forward),
      λ ne. omega (arith, peek_lt t.stream q.within ne, r.same_len, q.same_len),
    )
    after (false, t) q = (Reads-trans r q, inl refl)

read_char-Reads :
    (s : Scan)
    → s.stream.pos < s.stream.len
    → Reads s.stream (read_char s).stream × (s.stream.pos < (read_char s).stream.pos)
unfolding read_char
read_char-Reads s h = (skip-Reads s.stream (omega arith), omega (arith, skip_lt s.stream h))

module _ (p c : ℕ) (s : Scan) (here : s.stream.pos < s.stream.len)
    (look : s.nextc ≢ eoi → s.stream.pos + 1 < s.stream.len) where
  -- Two reads in a row.
  two_chars :
      s.nextc ≢ eoi
      → Reads s.stream (read_char (read_char s)).stream
        × (s.stream.pos < (read_char (read_char s)).stream.pos)
  unfolding read_char
  two_chars ne =
      let once = read_char-Reads s here in
      let twice =
        read_char-Reads (read_char s)
          (omega (arith, skip_lt s.stream here, look ne, once.0.same_len)) in
      (Reads-trans once.0 twice.0, omega (arith, once.1, twice.1))

  scan_dollar-Turned : Ends (Turned p s) (scan_dollar c s)
  unfolding scan_dollar
  scan_dollar-Turned = elim (Bool-cases (c == b'$')) [
    | inl e ↦ elim (Bool-cases (s.nextc == b'(')) [
      | inl paren ↦
          let two = two_chars (ground arith) in
          rw (e, paren) (scan_cmdsub-Turned p s (read_char (read_char s)) two.0 two.1)
      | inr other ↦ rw (e, other) (end_round-Turned p c s here look)
    ]
    | inr e ↦
        let once = read_char-Reads s here in
        rw e (scan_cmdsub-Turned p s (read_char s) once.0 once.1)
  ]

  scan_backslash-Turned : Turned p s (scan_backslash c s)
  unfolding scan_backslash read_char
  scan_backslash-Turned = ground (
    arith,
    end_round-Turned p c s here look,
    skip-Reads s.stream,
    skip_lt s.stream here,
    look,
    peek_ahead_lt (skip s.stream) 1,
  )

  return_operator-Turned : p ≤ s.stream.pos → Turned p s (return_operator c s)
  unfolding return_operator
  return_operator-Turned at_p =
      let op = lx_scan_operator-Reads s.stream c s.end here in (op.0, inr (omega (arith, op.1)))

  scan_quoted-Turned : (q : ℕ) → Turned p s (scan_quoted q c s)
  unfolding scan_quoted
  scan_quoted-Turned q = ground (
    arith,
    end_round-Turned p c s here look,
    end_round-Turned p c (record s { flag = toggle_flag c s.flag }) here look,
    skip-Reads s.stream,
  )

  digit_operator-Turned :
      (d : ℕ) → s.nextc ≢ eoi → p ≤ s.stream.pos → Turned p s (return_operator d (read_char s))
  unfolding return_operator read_char
  digit_operator-Turned d ne at_p =
      let t = skip s.stream in
      let once = skip-Reads s.stream (omega arith) in
      let op =
        lx_scan_operator-Reads t d (s.end + 1)
          (omega (arith, skip_lt s.stream here, look ne, once.same_len)) in
      (Reads-trans once op.0, inr (omega (arith, op.1, once.forward)))

  scan_unquoted-Turned :
      p ≤ s.stream.pos
      → (s.end ≡ s.begin) ⊎ (p < s.stream.pos)
      → Ends (Turned p s) (scan_unquoted c s)
  unfolding scan_unquoted
  scan_unquoted-Turned at_p begun =
      Ends-if (Turned p s) (isoperator c) _ _ (λ _. operator_or_end)
        λ _.
          Ends-if (Turned p s) (c == b'$' || c == backtick) _ _ (λ _. scan_dollar-Turned)
            λ _.
              Ends-if (Turned p s) (c == squote || c == dquote) _ _
                (λ _. end_round-Turned p c (record s { flag = toggle_flag c s.flag }) here look)
                λ _.
                  Ends-if (Turned p s) (c == backslash) _ _ (λ _. scan_backslash-Turned)
                    λ _. ground (
                      arith,
                      digit_operator-Turned (cs_peek (skip s.stream)),
                      end_round-Turned p c s here look,
                    )
    where
      operator_or_end :
          Ends
            (Turned p s)
            (ok (if s.end == s.begin then return_operator c s else returns s.predicted_type s))
      operator_or_end = ground (arith, return_operator-Turned at_p, skip-Reads s.stream)

  scan_flag-Turned :
      (flag : QuoteFlag)
      → p ≤ s.stream.pos
      → (s.end ≡ s.begin) ⊎ (p < s.stream.pos)
      → Ends (Turned p s) (scan_flag flag c s)
  unfolding scan_flag
  scan_flag-Turned single_quoted at_p begun = scan_quoted-Turned squote
  scan_flag-Turned double_quoted at_p begun = scan_quoted-Turned dquote
  scan_flag-Turned unquoted at_p begun = scan_unquoted-Turned at_p begun

pub scan_round-Turned :
    (p : ℕ) (s : Scan)
    → s.stream.pos < s.stream.len
    → p ≤ s.stream.pos
    → (s.end ≡ s.begin) ⊎ (p < s.stream.pos)
    → Ends (Turned p s) (scan_round s)
unfolding scan_round
scan_round-Turned p s here at_p begun =
    scan_flag-Turned p (cs_peek s.stream) (record s { nextc = cs_peek_ahead s.stream 1 }) here
      (peek_ahead_lt s.stream 1) s.flag at_p begun
