-- ===== src/Expand/OlderLaws.antt =====
-- src/expand.c: what `exptok` does with plain words and with variables.
use codecrafters_shell_c.Common.{
  ℕ, zero, suc, ◌+◌, ◌≤◌, ◌<◌, ◌≡◌, refl, ◌∙◌, Bool, true, false, not, ◌&&◌, ◌||◌, ◌==◌, leb, ltb,
  if◌then◌else◌, [], ◌∷◌, ◌++◌, Option, length, length-append, append_assoc, append-nil, and_true,
  Bool-cases, inl, inr, tests, head_or, arith,
}
use codecrafters_shell_c.Common.Bytes.{Bytes}
use codecrafters_shell_c.Common.Outcome.{ok, fault}
use codecrafters_shell_c.Lexer.Stream.{squote, dquote, backslash, unquoted}
use codecrafters_shell_c.StringBuilder.Buffer.{write_at}
use codecrafters_shell_c.Vars.Store.{Vars}
use codecrafters_shell_c.Expand.Older.{
  exptok_size, put, expvar, exp_dollar, exp_put, exp_round, exp_loop, exptok,
}

-- A character that `exptok` takes for itself, outside quotes.
unfoldable pub is_literal : ℕ → Bool
is_literal c = not (c == backslash || c == squote || c == dquote || c == b'~' || c == b'$')

unfoldable pub all_literal : Bytes → Bool
unfolding is_literal
all_literal [] = true
all_literal (c ∷ cs) = is_literal c && all_literal cs

-- A write just behind a block.
write_at-behind : (block : Bytes) (i c : ℕ) → length block ≤ i → write_at block i c ≡ fault
unfolding write_at
write_at-behind [] i c h = refl
write_at-behind (b ∷ bs) zero c h = absurd (omega arith)
write_at-behind (b ∷ bs) (suc i) c h = rw (write_at-behind bs i c (omega arith)) refl

module _ (vars : Vars) (home : Option Bytes) where
  expvar-fault : (c : ℕ) (cs buf : Bytes) → expvar vars home (c ∷ cs) buf ≡ fault
  unfolding expvar
  expvar-fault c cs buf =
      rw
        (write_at-behind (cs ++ 0 ∷ []) (suc (length cs)) 0
          (omega (arith, length-append cs (0 ∷ []))))
        refl

  exp_round-literal :
      (c : ℕ) (cs buf : Bytes)
      → is_literal c ≡ true
      → exp_round vars home unquoted c cs buf ≡ exp_put vars home cs unquoted buf (c ∷ [])
  unfolding exp_round is_literal
  exp_round-literal c cs buf h = ground arith

  -- A round that writes its character, where there is room for it.
  exp_loop_on :
      (f c : ℕ) (cs buf : Bytes)
      → is_literal c ≡ true
      → length buf < exptok_size
      → exp_loop vars home (suc f) unquoted (c ∷ cs) buf
        ≡ exp_loop vars home f unquoted cs (buf ++ c ∷ [])
  unfolding exp_loop exp_put put
  exp_loop_on f c cs buf h room =
      let fits : ltb exptok_size (length buf + 1) ≡ false = ground arith in
      rw (exp_round-literal c cs buf h, fits) refl

  exp_loop_full :
      (f c : ℕ) (cs buf : Bytes)
      → is_literal c ≡ true
      → exptok_size ≤ length buf
      → exp_loop vars home (suc f) unquoted (c ∷ cs) buf ≡ fault
  unfolding exp_loop exp_put put
  exp_loop_full f c cs buf h full =
      let over : ltb exptok_size (length buf + 1) ≡ true = ground arith in
      rw (exp_round-literal c cs buf h, over) refl

  exp_loop-all_literal :
      (f : ℕ) (word buf : Bytes)
      → all_literal word ≡ true
      → length word < f
      → length buf ≤ exptok_size
      → exp_loop vars home f unquoted word buf
        ≡ (if leb (length buf + length word) exptok_size then ok (buf ++ word) else fault)
  unfolding all_literal exp_loop
  exp_loop-all_literal zero word buf h fuel room = absurd (omega arith)
  exp_loop-all_literal (suc f) [] buf h fuel room =
      let fits : leb (length buf + 0) exptok_size ≡ true = ground arith in
      rw (exp_loop, fits, append-nil buf) refl
  exp_loop-all_literal (suc f) (c ∷ cs) buf h fuel room =
      let (here, others) = and_true (is_literal c) (all_literal cs) h in
      elim (Bool-cases (ltb (length buf) exptok_size)) [
        | inl more ↦
            let same : length (buf ++ c ∷ []) + length cs ≡ length buf + suc (length cs) =
              omega (arith, length-append buf (c ∷ [])) in
            exp_loop_on f c cs buf here (ground arith)
            ∙ exp_loop-all_literal f cs (buf ++ c ∷ []) others (omega arith)
                (omega (tests, more, length-append buf (c ∷ [])))
            ∙ rw (same, append_assoc buf (c ∷ []) cs) refl
        | inr full ↦
            let over : leb (length buf + suc (length cs)) exptok_size ≡ false = ground arith in
            exp_loop_full f c cs buf here (ground arith) ∙ rw over refl
      ]

  -- A word that needs no expansion is copied if it and its NUL fit the buffer of 1024 bytes; a longer
  -- one overruns the buffer.
  pub exptok-all_literal :
      (word : Bytes)
      → all_literal word ≡ true
      → exptok vars home word ≡ (if ltb (length word) exptok_size then ok word else fault)
  unfolding exptok
  exptok-all_literal word h =
      let run = exp_loop-all_literal (suc (length word)) word [] h (omega arith) (omega arith) in
      rw run (ground arith)

  exp_dollar-fault :
      (ds buf : Bytes)
      → (head_or 0 ds == b'{') ≡ false
      → exp_dollar vars home (b'$' ∷ ds) buf ≡ fault
  unfolding exp_dollar
  exp_dollar-fault [] buf h = rw (expvar-fault b'$' [] buf) refl
  exp_dollar-fault (d ∷ ds) buf h = rw (h, expvar-fault b'$' (d ∷ ds) buf) refl

  exp_loop-fault :
      (f : ℕ) (word ds buf : Bytes)
      → all_literal word ≡ true
      → length word < f
      → (head_or 0 ds == b'{') ≡ false
      → exp_loop vars home f unquoted (word ++ b'$' ∷ ds) buf ≡ fault
  unfolding all_literal exp_loop
  exp_loop-fault zero word ds buf h fuel brace = absurd (omega arith)
  exp_loop-fault (suc f) [] ds buf h fuel brace =
      rw (exp_loop, exp_round, exp_dollar-fault ds buf brace) refl
  exp_loop-fault (suc f) (c ∷ cs) ds buf h fuel brace =
      let (here, others) = and_true (is_literal c) (all_literal cs) h in
      elim (Bool-cases (ltb (length buf) exptok_size)) [
        | inl more ↦
            exp_loop_on f c (cs ++ b'$' ∷ ds) buf here (ground arith)
            ∙ exp_loop-fault f cs ds (buf ++ c ∷ []) others (omega arith) brace
        | inr full ↦ exp_loop_full f c (cs ++ b'$' ∷ ds) buf here (ground arith)
      ]

  -- A variable without braces behind literal text makes `exptok` write outside a block, whatever
  -- the variables are.
  pub exptok-fault :
      (word ds : Bytes)
      → all_literal word ≡ true
      → (head_or 0 ds == b'{') ≡ false
      → exptok vars home (word ++ b'$' ∷ ds) ≡ fault
  unfolding exptok
  exptok-fault word ds h brace =
      rw
        (exp_loop-fault (suc (length (word ++ b'$' ∷ ds))) word ds [] h
          (omega (arith, length-append word (b'$' ∷ ds))) brace)
        refl
