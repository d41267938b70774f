-- ===== src/Parser/Overrun.antt =====
-- src/parser.c: what becomes of every line where a block can be used only for the bytes asked for.
use codecrafters_shell_c.Common.{
  ℕ, zero, suc, ◌≡◌, ◌≢◌, refl, subst, Bool, true, false, leb, Option, none, some, ◌+◌, ◌*◌, ◌==◌,
  arith,
}
use codecrafters_shell_c.Common.Bytes.{Bytes}
use codecrafters_shell_c.Common.Outcome.{Outcome, ok, fault, out_of_fuel, exited, ◌>>=◌}
use codecrafters_shell_c.Tokens.{TokenList, tokenlist_new_empty}
use codecrafters_shell_c.Lexer.Stream.{cs_new}
use codecrafters_shell_c.Lexer.Tokenize.{lx_tokenize}
use codecrafters_shell_c.Syntax.{Command, ShellList}
use codecrafters_shell_c.Parser.Vectors.{av_new, rv_new}
use codecrafters_shell_c.Common.{[]}
use codecrafters_shell_c.Parser.Stream.{TokenStream, ts_new, ts_peek}
use codecrafters_shell_c.Parser.Parse.{
  Allocator, Parts, take_token, make_command, command_loop, parse_command, parse_pipeline,
  parse_and_or, parse_list, lex_and_parse,
}

-- Whether a call gives no value, and whether it gives no tree.
abbrev Fails {ℓ} : {A : Type ℓ} → Outcome A → Type 0
Fails (ok a) = ⊥
Fails _ = Unit {0}

abbrev NoTree : Outcome (Option ShellList) → Type 0
NoTree (ok (some list)) = ⊥
NoTree _ = Unit {0}

module _ {ℓ κ} {A : Type ℓ} {B : Type κ} where
  Fails-first : (m : Outcome A) (f : A → Outcome B) → Fails m → Fails (m >>= f)
  Fails-first (ok a) f h = absurd h
  Fails-first fault f h = tt
  Fails-first out_of_fuel f h = tt
  Fails-first (exited n) f h = tt

  Fails-then : (m : Outcome A) (f : A → Outcome B) → ((a : A) → Fails (f a)) → Fails (m >>= f)
  Fails-then (ok a) f h = h a
  Fails-then fault f h = tt
  Fails-then out_of_fuel f h = tt
  Fails-then (exited n) f h = tt

NoTree-bind :
    {A : Type 0} (m : Outcome A) (f : A → Outcome (Option ShellList))
    → ((a : A) → NoTree (f a))
    → NoTree (m >>= f)
NoTree-bind (ok a) f h = h a
NoTree-bind fault f h = tt
NoTree-bind out_of_fuel f h = tt
NoTree-bind (exited n) f h = tt

NoTree-of_Fails : (m : Outcome (Option ShellList)) → Fails m → NoTree m
NoTree-of_Fails (ok none) h = tt
NoTree-of_Fails (ok (some list)) h = h
NoTree-of_Fails fault h = tt
NoTree-of_Fails out_of_fuel h = tt
NoTree-of_Fails (exited n) h = tt

module _ ⦃alloc : Allocator⦄ (exact : (n : ℕ) → alloc.usable n ≡ n) where
  make_command-fault : (p : Parts) → make_command p ≡ fault
  unfolding make_command
  make_command-fault p =
      let short : leb (8 * (p.av.size + 1)) (alloc.usable (8 * p.av.size + 1)) ≡ false =
        ground (arith, exact (8 * p.av.size + 1)) in
      rw short refl

  taken-Fails :
      (p : Parts) (more : Parts → Outcome (Command × TokenStream)) (next : Option Parts)
      → ((p' : Parts) → Fails (more p'))
      → Fails {A = Command × TokenStream} (elim next [
        | none ↦ make_command p >>= λ command. ok (command, p.stream)
        | some p' ↦ more p'
      ])
  taken-Fails p more none h = rw (make_command-fault p) tt
  taken-Fails p more (some p') h = h p'

  command_loop-Fails : (f : ℕ) (p : Parts) → Fails (command_loop f p)
  unfolding command_loop
  command_loop-Fails zero p = tt
  command_loop-Fails (suc f) p =
      Fails-then (take_token (ts_peek p.stream).type (ts_peek p.stream) p) _
        (λ next. taken-Fails p (command_loop f) next (command_loop-Fails f))

  parse_list-Fails : (s : TokenStream) → Fails (parse_list s)
  unfolding parse_list parse_and_or parse_pipeline parse_command
  parse_list-Fails s = Fails-first (parse_and_or s) _ (
      Fails-first (parse_pipeline s) _ (
        Fails-first (parse_command s) _ (
          command_loop-Fails (suc s.len)
            (record { av = av_new; rv = rv_new; assignments = []; stream = s }))))

  read-NoTree :
      (well : Bool) (tokens : TokenList)
      → NoTree (elim well [
        | true ↦ parse_list (ts_new tokens) >>= λ result. ok (some result.0)
        | false ↦ ok none
      ])
  read-NoTree true tokens =
      NoTree-of_Fails _
        (Fails-first (parse_list (ts_new tokens)) _ (parse_list-Fails (ts_new tokens)))
  read-NoTree false tokens = tt

  pub lex_and_parse-NoTree :
      (input : Bytes) (list : ShellList) → lex_and_parse input ≢ ok (some list)
  unfolding lex_and_parse
  lex_and_parse-NoTree input list e = subst NoTree e (
      NoTree-bind (lx_tokenize tokenlist_new_empty (cs_new input)) _
        (λ r. read-NoTree (r.0 == 0) r.1))
