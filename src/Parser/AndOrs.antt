-- ===== src/Parser/AndOrs.antt =====
-- src/parser.c: the parser reads back pipelines, and chains of && and ||.
use codecrafters_shell_c.Parser.Parse.{Allocator, WholeWords}
use codecrafters_shell_c.Common.{
  ℕ, zero, suc, ◌+◌, ◌≤◌, ◌<◌, ◌≡◌, refl, subst, ◌∙◌, ◌||◌, true, false, List, [], ◌∷◌, ◌++◌,
  append_assoc, append-nil, arith, length, length-append, if◌then◌else◌,
}
use codecrafters_shell_c.Common.Outcome.{Outcome, ok}
use codecrafters_shell_c.Tokens.{tok_pipe, tok_and, tok_or, Token, newtok, same_type}
use codecrafters_shell_c.Syntax.{Command, Pipeline, AndOrElement, and_none}
use codecrafters_shell_c.Parser.Stream.{TokenStream, ts_check, ts_read}
use codecrafters_shell_c.Parser.Parse.{pipeline_loop, parse_pipeline, and_or_loop, parse_and_or}
use codecrafters_shell_c.Parser.Left.{
  Left, Left-length, ts_read-Left, ts_check-Left, ts_check-Left_last,
}
use codecrafters_shell_c.Parser.Steps.{
  pipeline_loop_on, pipeline_loop_off, and_or_loop_on, and_or_loop_off,
}
use codecrafters_shell_c.Parser.Grammar.{
  PipelineLine, Connective, conj, disj, AndOrLine, command_tokens, piped_tokens, pipeline_tokens,
  connective_token, connected_tokens, and_or_tokens, pipeline_tree, connective_op,
  connected_elements, and_or_tree, AllSmall, SmallPipeline, AllSmallPipelines, SmallAndOr,
}
use codecrafters_shell_c.Parser.Commands.{ends_command, EndsCommand, parse_command_lem}

-- The parse of `a` off a stream ends with `ts` left.
abbrev pub Gives {ℓ} : {A : Type ℓ} → Outcome (A × TokenStream) → A → List Token → Token → Type ℓ
Gives m a ts e = (s' : TokenStream) × (m ≡ ok (a, s')) × Left s' ts e

-- What ends a pipeline ends a command and is no pipe; and so on outwards.
abbrev pub EndsPipeline : List Token → Type 0
EndsPipeline [] = Unit {0}
EndsPipeline (t ∷ ts) = (ends_command t.type ≡ true) × (same_type t.type tok_pipe ≡ false)

abbrev pub EndsAndOr : List Token → Type 0
EndsAndOr [] = Unit {0}
EndsAndOr (t ∷ ts) =
    (ends_command t.type ≡ true)
    × (same_type t.type tok_pipe ≡ false)
    × (same_type t.type tok_and ≡ false)
    × (same_type t.type tok_or ≡ false)

EndsPipeline-EndsCommand : (ts : List Token) → EndsPipeline ts → EndsCommand ts
EndsPipeline-EndsCommand [] h = h
EndsPipeline-EndsCommand (t ∷ ts) h = h.0

EndsAndOr-EndsPipeline : (ts : List Token) → EndsAndOr ts → EndsPipeline ts
EndsAndOr-EndsPipeline [] h = h
EndsAndOr-EndsPipeline (t ∷ ts) h = (h.0, h.1)

piped-EndsCommand :
    (cs : List Command) (ts : List Token) → EndsPipeline ts → EndsCommand (piped_tokens cs ++ ts)
piped-EndsCommand [] ts h = EndsPipeline-EndsCommand ts h
piped-EndsCommand (c ∷ cs) ts h = refl

length-piped : (cs : List Command) → length cs ≤ length (piped_tokens cs)
length-piped [] = omega arith
length-piped (c ∷ cs) =
    omega (arith, length-piped cs, length-append (command_tokens c) (piped_tokens cs))

no_pipe :
    (ts : List Token) (e : Token) (s : TokenStream)
    → Left s ts e
    → EndsPipeline ts
    → ts_check s tok_pipe ≡ false
no_pipe [] e s l h = ts_check-Left_last s e tok_pipe l
no_pipe (t ∷ ts) e s l h = ts_check-Left s e t ts tok_pipe l ∙ h.1

module _ ⦃alloc : Allocator⦄ ⦃words : WholeWords alloc⦄ where
  pipeline_loop-Gives :
      (f : ℕ) (cs : List Command) (done : Pipeline) (ts : List Token) (e : Token) (s : TokenStream)
      → Left s (piped_tokens cs ++ ts) e
      → EndsPipeline ts
      → AllSmall cs
      → length cs < f
      → Gives
          (pipeline_loop f done s)
          (record { size = done.size + length cs; commands = done.commands ++ cs })
          ts
          e
  pipeline_loop-Gives zero cs done ts e s l ends small fuel = absurd (omega arith)
  pipeline_loop-Gives (suc f) [] done ts e s l ends small fuel = (
    s,
    pipeline_loop_off f done s (no_pipe ts e s l ends) ∙ ground (arith, append-nil done.commands),
    l,
  )
  pipeline_loop-Gives (suc f) (c ∷ cs) done ts e s l ends small fuel =
      let bar : Token = newtok tok_pipe (124 ∷ []) in
      let rest = piped_tokens cs ++ ts in
      let behind : Left (ts_read s).1 (command_tokens c ++ rest) e =
        subst (λ xs. Left (ts_read s).1 xs e) (append_assoc (command_tokens c) (piped_tokens cs) ts)
          (ts_read-Left s e bar _ l).1 in
      let (s', run, left) =
        parse_command_lem c rest e (ts_read s).1 behind (piped-EndsCommand cs ts ends) small.0 in
      let (s'', run', left') =
        pipeline_loop-Gives f cs
          (record { size = done.size + 1; commands = done.commands ++ c ∷ [] }) ts e s' left ends
          small.1 (omega arith) in
      (
        s'',
        pipeline_loop_on f done s (ts_check-Left s e bar _ tok_pipe l)
            ∙ rw run (run' ∙ ground (arith, append_assoc done.commands (c ∷ []) cs)),
        left',
      )

  parse_pipeline-Gives :
      (p : PipelineLine) (ts : List Token) (e : Token) (s : TokenStream)
      → Left s (pipeline_tokens p ++ ts) e
      → EndsPipeline ts
      → SmallPipeline p
      → Gives (parse_pipeline s) (pipeline_tree p) ts e
  unfolding parse_pipeline
  parse_pipeline-Gives p ts e s l ends small =
      let rest = piped_tokens p.others ++ ts in
      let whole : Left s (command_tokens p.first ++ rest) e =
        subst (λ xs. Left s xs e) (append_assoc (command_tokens p.first) (piped_tokens p.others) ts)
          l in
      let (s', run, left) =
        parse_command_lem p.first rest e s whole (piped-EndsCommand p.others ts ends) small.0 in
      let (s'', run', left') =
        pipeline_loop-Gives (suc s'.len) p.others (record { size = 1; commands = p.first ∷ [] }) ts
          e s' left ends small.1
          (omega (
            arith,
            Left-length s' e rest left,
            length-append (piped_tokens p.others) ts,
            length-piped p.others,
          )) in
      (s'', rw run (run' ∙ ground arith), left')

  connected-EndsPipeline :
      (ps : List (Connective × PipelineLine)) (ts : List Token)
      → EndsAndOr ts
      → EndsPipeline (connected_tokens ps ++ ts)
  connected-EndsPipeline [] ts h = EndsAndOr-EndsPipeline ts h
  connected-EndsPipeline ((conj, p) ∷ ps) ts h = (refl, refl)
  connected-EndsPipeline ((disj, p) ∷ ps) ts h = (refl, refl)

  no_connective :
      (ts : List Token) (e : Token) (s : TokenStream)
      → Left s ts e
      → EndsAndOr ts
      → (ts_check s tok_and || ts_check s tok_or) ≡ false
  no_connective [] e s l h = rw (ts_check-Left_last s e tok_and l, ts_check-Left_last s e tok_or l)
  no_connective (t ∷ ts) e s l h =
      rw (ts_check-Left s e t ts tok_and l, ts_check-Left s e t ts tok_or l, h.2, h.3)

  -- The operator that is read is the one that was written.
  connective_read :
      (op : Connective) (ts : List Token) (e : Token) (s : TokenStream)
      → Left s (connective_token op ∷ ts) e
      → ((ts_check s tok_and || ts_check s tok_or) ≡ true)
        × ((if ts_check s tok_and then connective_op conj else connective_op disj)
            ≡ connective_op op)
  connective_read conj ts e s l =
      (rw (ts_check-Left s e _ ts tok_and l), rw (ts_check-Left s e _ ts tok_and l))
  connective_read disj ts e s l = (
    rw (ts_check-Left s e _ ts tok_and l, ts_check-Left s e _ ts tok_or l),
    rw (ts_check-Left s e _ ts tok_and l),
  )

  length-connected :
      (ps : List (Connective × PipelineLine)) → length ps ≤ length (connected_tokens ps)
  length-connected [] = omega arith
  length-connected ((op, p) ∷ ps) =
      omega (arith, length-connected ps, length-append (pipeline_tokens p) (connected_tokens ps))

  and_or_loop-Gives :
      (f count : ℕ) (ps : List (Connective × PipelineLine)) (done : List AndOrElement)
      (p : Pipeline) (ts : List Token) (e : Token) (s : TokenStream)
      → Left s (connected_tokens ps ++ ts) e
      → EndsAndOr ts
      → AllSmallPipelines ps
      → length ps < f
      → Gives
          (and_or_loop f count done (record { pipeline = p; op = and_none }) s)
          (record { count = count + length ps; elements = done ++ connected_elements p ps })
          ts
          e
  and_or_loop-Gives zero count ps done p ts e s l ends small fuel = absurd (omega arith)
  and_or_loop-Gives (suc f) count [] done p ts e s l ends small fuel =
      (s, and_or_loop_off f count done _ s (no_connective ts e s l ends) ∙ ground arith, l)
  and_or_loop-Gives (suc f) count ((op, q) ∷ ps) done p ts e s l ends small fuel =
      let rest = connected_tokens ps ++ ts in
      let behind : Left (ts_read s).1 (pipeline_tokens q ++ rest) e =
        subst (λ xs. Left (ts_read s).1 xs e)
          (append_assoc (pipeline_tokens q) (connected_tokens ps) ts)
          (ts_read-Left s e (connective_token op) _ l).1 in
      let (s', run, left) =
        parse_pipeline-Gives q rest e (ts_read s).1 behind (connected-EndsPipeline ps ts ends)
          small.0 in
      let el : AndOrElement = record { pipeline = p; op = connective_op op } in
      let (s'', run', left') =
        and_or_loop-Gives f (count + 1) ps (done ++ el ∷ []) (pipeline_tree q) ts e s' left ends
          small.1 (omega arith) in
      let (on, same) = connective_read op _ e s l in
      (
        s'',
        and_or_loop_on f count done _ s on
            ∙ rw (same, run)
                (run'
                  ∙ ground (
                    arith,
                    append_assoc done (el ∷ []) (connected_elements (pipeline_tree q) ps),
                  )),
        left',
      )

  pub parse_and_or-Gives :
      (a : AndOrLine) (ts : List Token) (e : Token) (s : TokenStream)
      → Left s (and_or_tokens a ++ ts) e
      → EndsAndOr ts
      → SmallAndOr a
      → Gives (parse_and_or s) (and_or_tree a) ts e
  unfolding parse_and_or
  parse_and_or-Gives a ts e s l ends small =
      let rest = connected_tokens a.others ++ ts in
      let whole : Left s (pipeline_tokens a.first ++ rest) e =
        subst (λ xs. Left s xs e)
          (append_assoc (pipeline_tokens a.first) (connected_tokens a.others) ts) l in
      let (s', run, left) =
        parse_pipeline-Gives a.first rest e s whole (connected-EndsPipeline a.others ts ends)
          small.0 in
      let (s'', run', left') =
        and_or_loop-Gives (suc s'.len) 1 a.others [] (pipeline_tree a.first) ts e s' left ends
          small.1
          (omega (
            arith,
            Left-length s' e rest left,
            length-append (connected_tokens a.others) ts,
            length-connected a.others,
          )) in
      (s'', rw run (run' ∙ ground arith), left')
