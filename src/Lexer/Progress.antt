-- ===== src/Lexer/Progress.antt =====
-- src/lexer.c: the loops of the scanner, and how far each moves the stream.
use codecrafters_shell_c.Common.{
  ℕ, zero, suc, ◌+◌, ◌≤◌, ◌<◌, ◌≡◌, refl, sym, ◌≢◌, ◌⊎◌, inl, inr, true, false, ◌==◌, arith,
  Bool-cases,
}
use codecrafters_shell_c.Common.Bytes.{isspace}
use codecrafters_shell_c.Common.Outcome.{Outcome, ok, Ends, Ends-bind}
use codecrafters_shell_c.Lexer.Stream.{
  CharStream, cs_peek, skip, eoi, QuoteFlag, unquoted, single_quoted, double_quoted,
  lx_end_of_token,
}
use codecrafters_shell_c.Lexer.Scan.{
  consume_ws, Scan, Turn, returns, breaks, tests, scan_round, leave, scan_loop, start_scan,
  scan_from, lx_scan,
}
use codecrafters_shell_c.Tokens.{TokenType, tok_err, tok_eof}
use codecrafters_shell_c.Lexer.Reads.{Reads, Reads-refl, Reads-trans, skip-Reads, skip_lt, peek_lt}
use codecrafters_shell_c.Lexer.Rounds.{Turned, scan_round-Turned}

-- A token that the scan from `o` returns: the stream is read within its buffer, and beyond `o`
-- unless the token is the end of the input or an error.
abbrev pub Scanned : CharStream → TokenType × Scan → Type 0
Scanned o r = Reads o r.1.stream × ((r.0 ≡ tok_err) ⊎ (r.0 ≡ tok_eof) ⊎ (o.pos < r.1.stream.pos))

leave-Scanned :
    (o : CharStream) (flag : QuoteFlag) (s : Scan)
    → Reads o s.stream
    → o.pos < s.stream.pos
    → Scanned o (leave flag s)
unfolding leave
leave-Scanned o unquoted s r lt = (r, inr (inr lt))
leave-Scanned o single_quoted s r lt = (r, inl refl)
leave-Scanned o double_quoted s r lt = (r, inl refl)

lx_end_of_token-eoi : (c : ℕ) (flag : QuoteFlag) → lx_end_of_token c flag ≡ false → c ≢ eoi
unfolding lx_end_of_token
lx_end_of_token-eoi c unquoted h = ground arith
lx_end_of_token-eoi c single_quoted h = ground arith
lx_end_of_token-eoi c double_quoted h = ground arith

scan_loop-Ends :
    (f : ℕ) (o : CharStream) (s : Scan)
    → s.stream.len < f + s.stream.pos
    → Reads o s.stream
    → s.stream.pos < s.stream.len
    → (s.end ≡ s.begin) ⊎ (o.pos < s.stream.pos)
    → Ends (Scanned o) (scan_loop f s)
unfolding scan_loop
scan_loop-Ends zero o s fuel r here begun = absurd (omega arith)
scan_loop-Ends (suc f) o s fuel r here begun =
    Ends-bind (Scanned o) (scan_round s) _ (scan_round-Turned o.pos s here r.forward begun)
      (after (scan_loop f) (scan_loop-Ends f o))
  where
    after :
        (more : Scan → Outcome (TokenType × Scan))
        → ((t : Scan)
            → t.stream.len < f + t.stream.pos
            → Reads o t.stream
            → t.stream.pos < t.stream.len
            → (t.end ≡ t.begin) ⊎ (o.pos < t.stream.pos)
            → Ends (Scanned o) (more t))
        → (turn : Turn) → Turned o.pos s turn
        → Ends (Scanned o) (elim turn [
          | returns type t ↦ ok (type, t)
          | breaks t ↦ ok (leave t.flag t)
          | tests t ↦ elim (lx_end_of_token t.nextc t.flag) [
            | true ↦ ok (leave t.flag t)
            | false ↦ more t
          ]
        ])
    after more ih (returns type t) h = (Reads-trans r h.0, ground (arith, h.1))
    after more ih (breaks t) h =
        leave-Scanned o t.flag t (Reads-trans r h.0) (omega (arith, h.1, r.forward))
    after more ih (tests t) h = elim (Bool-cases (lx_end_of_token t.nextc t.flag)) [
      | inl e ↦ rw e (leave-Scanned o t.flag t (Reads-trans r h.0) (omega (arith, h.1, r.forward)))
      | inr e ↦ rw e (
          ih t (omega (arith, h.1, h.0.same_len)) (Reads-trans r h.0)
            (omega (arith, h.2 (lx_end_of_token-eoi t.nextc t.flag e), h.0.same_len))
            (inr (omega (arith, h.1, r.forward))))
    ]

isspace-ne-eoi : (c : ℕ) → isspace c ≡ true → c ≢ eoi
unfolding isspace
isspace-ne-eoi c h = ground arith

-- Behind white space: the stream, and the two offsets, which moved along with it.
abbrev Skipped : CharStream → ℕ → CharStream × ℕ × ℕ → Type 0
Skipped o begin r = Reads o r.0 × (r.1 ≡ r.2) × (r.1 + o.pos ≡ begin + r.0.pos)

consume_ws-Ends :
    (f : ℕ) (o s : CharStream) (begin origin : ℕ)
    → s.len < f + s.pos
    → Reads o s
    → begin + o.pos ≡ origin + s.pos
    → Ends (Skipped o origin) (consume_ws f s begin begin)
unfolding consume_ws
consume_ws-Ends zero o s begin origin fuel r e = omega (arith, r.within)
consume_ws-Ends (suc f) o s begin origin fuel r e = elim (Bool-cases (isspace (cs_peek s))) [
  | inl space ↦
      let here = peek_lt s r.within (isspace-ne-eoi (cs_peek s) space) in
      rw (space, Ends, consume_ws)
        (consume_ws-Ends f o (skip s) (begin + 1) origin
          (omega (arith, skip_lt s here, (skip-Reads s r.within).same_len))
          (Reads-trans r (skip-Reads s r.within)) (omega (arith, skip_lt s here)))
  | inr other ↦ rw (other, Ends, consume_ws) (r, refl, e)
]

scan_from-Ends :
    (o : CharStream) (r : CharStream × ℕ × ℕ)
    → Reads o r.0
    → r.1 ≡ r.2
    → Ends (Scanned o) (scan_from r)
unfolding scan_from start_scan
scan_from-Ends o (s, begin, end) r same = elim (Bool-cases (cs_peek s == eoi)) [
  | inl e ↦ rw e (r, inr (inl refl))
  | inr e ↦ rw e (
      scan_loop-Ends (suc s.len) o (start_scan s begin end) (omega arith) r
        (peek_lt s r.within (ground arith)) (inl (sym same)))
]

-- From a stream in its range, the scan of a token ends, stays in the range, and takes at least
-- one character unless the token is the end of the input or an error.
pub lx_scan-Scanned : (s : CharStream) → s.pos ≤ s.len → Ends (Scanned s) (lx_scan s)
unfolding lx_scan start_scan
lx_scan-Scanned s h = elim (Bool-cases (isspace (cs_peek s))) [
  | inl space ↦ elim (Bool-cases (cs_peek s == 10)) [
    | inl newline ↦
        let here = peek_lt s h (isspace-ne-eoi (cs_peek s) space) in
        rw (space, newline) (skip-Reads s h, inr (inr (omega (arith, skip_lt s here))))
    | inr other ↦
        rw (space, other)
          (Ends-bind (Scanned s) (consume_ws (suc s.len) s s.pos s.pos) scan_from
            (consume_ws-Ends (suc s.len) s s s.pos s.pos (omega arith) (Reads-refl s h) refl)
            (λ r q. scan_from-Ends s r q.0 q.1))
  ]
  | inr other ↦ rw other (scan_from-Ends s (s, s.pos, s.pos) (Reads-refl s h) refl)
]
