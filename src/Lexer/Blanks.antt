-- ===== src/Lexer/Blanks.antt =====
-- src/lexer.c: the white space before a token, skipped.
use codecrafters_shell_c.Common.{
  length-append, ℕ, zero, suc, ◌+◌, ◌<◌, ◌≡◌, refl, Bool, true, false, not, ◌&&◌, ◌==◌, [], ◌∷◌,
  ◌++◌, and_true, arith, length,
}
use codecrafters_shell_c.Common.Bytes.{Bytes, isspace}
use codecrafters_shell_c.Common.Outcome.{ok}
use codecrafters_shell_c.Lexer.Scan.{consume_ws, scan_from, lx_scan}
use codecrafters_shell_c.Lexer.Places.{
  place, Behind, next, next-Behind, peek-Behind, skip-Behind, length-Behind,
}

unfoldable pub all_space : Bytes → Bool
all_space [] = true
all_space (c ∷ cs) = isspace c && all_space cs

-- White space that does not begin with a newline, which is a token.
unfoldable pub is_blank : Bytes → Bool
unfolding all_space
is_blank [] = true
is_blank (c ∷ cs) = not (c == 10) && all_space (c ∷ cs)

consume_ws-all_space :
    (f : ℕ) (text : Bytes) (p q : ℕ) (gap rest : Bytes)
    → Behind text p (gap ++ rest)
    → all_space gap ≡ true
    → isspace (next rest) ≡ false
    → length gap < f
    → p + length gap ≡ q
    → consume_ws f (place text p) p p ≡ ok (place text q, q, q)
unfolding consume_ws all_space
consume_ws-all_space zero text p q gap rest b h k fuel e = absurd (omega arith)
consume_ws-all_space (suc f) text p q [] rest b h k fuel e =
    let same : q ≡ p = omega arith in rw (same, consume_ws, peek-Behind text p rest b, k) refl
consume_ws-all_space (suc f) text p q (c ∷ cs) rest b h k fuel e =
    let (space, spaces) = and_true (isspace c) (all_space cs) h in
    let one : p + 1 ≡ suc p = omega arith in
    rw
      (
        consume_ws,
        peek-Behind text p (c ∷ (cs ++ rest)) b,
        space,
        skip-Behind text p c (cs ++ rest) b,
        one,
      )
      (consume_ws-all_space f text (suc p) q cs rest (next-Behind text p c (cs ++ rest) b) spaces k
        (omega arith) (omega arith))

-- The scan starts behind the blanks.
pub lx_scan-is_blank :
    (text : Bytes) (p q : ℕ) (gap rest : Bytes)
    → Behind text p (gap ++ rest)
    → is_blank gap ≡ true
    → isspace (next rest) ≡ false
    → p + length gap ≡ q
    → lx_scan (place text p) ≡ scan_from (place text q, q, q)
unfolding lx_scan is_blank all_space
lx_scan-is_blank text p q [] rest b h k e =
    let same : q ≡ p = omega arith in rw (same, peek-Behind text p rest b, k) refl
lx_scan-is_blank text p q (c ∷ cs) rest b h k e =
    let (ne, spaces) = and_true (not (c == 10)) (all_space (c ∷ cs)) h in
    let space = (and_true (isspace c) (all_space cs) spaces).0 in
    let other : (c == 10) ≡ false = ground arith in
    rw
      (
        peek-Behind text p (c ∷ (cs ++ rest)) b,
        space,
        other,
        consume_ws-all_space (suc (length text)) text p q (c ∷ cs) rest b spaces k
            (omega (arith, length-Behind text p _ b, length-append (c ∷ cs) rest)) e,
      )
      refl
