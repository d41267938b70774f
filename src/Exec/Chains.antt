-- ===== src/Exec/Chains.antt =====
-- src/exec.c and src/parser.c: chains of && and ||, against the meaning that POSIX gives them.
use codecrafters_shell_c.Common.Outcome.{Outcome, ◌>>=◌, bind_assoc, bind_ext, bind-ok}
use codecrafters_shell_c.Parser.Parse.{Allocator, WholeWords}
use codecrafters_shell_c.Syntax.{sep_none, and_and, and_or, ListElement}
use codecrafters_shell_c.Common.{ap, ◌∙◌}
use codecrafters_shell_c.Parser.Grammar.{connected_elements}
use codecrafters_shell_c.Exec.Expansion.{expand_elements, expand_andor, expand_list_elements}
use codecrafters_shell_c.Exec.Execute.{list_elements_loop, execute_element}
use codecrafters_shell_c.Common.{ℕ, ◌≡◌, sym, List, [], ◌∷◌}
use codecrafters_shell_c.Tokens.{Token}
use codecrafters_shell_c.Syntax.{and_none, AndOrElement, ShellList}
use codecrafters_shell_c.Parser.Grammar.{
  PipelineLine, Connective, conj, disj, Line, line_tokens, line_tree, pipeline_tree, SmallLine,
}
use codecrafters_shell_c.Parser.Stream.{TokenStream}
use codecrafters_shell_c.Parser.Parse.{parse_list}
use codecrafters_shell_c.Parser.Left.{Left}
use codecrafters_shell_c.Parser.RoundTrip.{parse_list-line_tokens}
use codecrafters_shell_c.Common.Outcome.{ok}
use codecrafters_shell_c.Exec.Services.{Services}
use codecrafters_shell_c.Exec.Expansion.{expand_list, expand_pipeline}
use codecrafters_shell_c.Exec.Execute.{returns_at, andor_loop, execute_andor, execute_list}

abbrev pub or_line : PipelineLine → PipelineLine → List (Connective × PipelineLine) → Line
or_line p q ps = record { first = record { first = p; others = (disj, q) ∷ ps }; others = [] }

abbrev pub and_line : PipelineLine → PipelineLine → Line
and_line p q = record { first = record { first = p; others = (conj, q) ∷ [] }; others = [] }

-- A line that is one chain.
abbrev one_chain : ℕ → List AndOrElement → ShellList
one_chain count els = record {
  count = 1;
  elements = record { and_or = record { count = count; elements = els }; sep = sep_none } ∷ [];
}

module _ (sys : Services) where
  open sys use {World, execute_pipeline}

  -- The element of the list that holds the chain.
  abbrev element_of : ℕ → List AndOrElement → ListElement
  element_of count els = record {
    and_or = record { count = count; elements = els };
    sep = sep_none;
  }

  expand_list_elements-one_chain :
      (count : ℕ) (els : List AndOrElement) (w : World)
      → expand_list_elements sys (element_of count els ∷ []) w
        ≡ (expand_elements sys els w >>= λ r. ok (element_of count r.0 ∷ [], r.1))
  unfolding expand_list_elements expand_andor
  expand_list_elements-one_chain count els w =
      bind_assoc (expand_elements sys els w) (λ r. ok ((element_of count r.0).and_or, r.1))
        (λ r. ok (record (element_of count els) { and_or = r.0 } ∷ [], r.1))

  expand_list-one_chain :
      (count : ℕ) (els : List AndOrElement) (w : World)
      → expand_list sys (one_chain count els) w
        ≡ (expand_elements sys els w >>= λ r. ok (one_chain count r.0, r.1))
  unfolding expand_list
  expand_list-one_chain count els w =
      let whole : List ListElement × World → Outcome (ShellList × World) =
        λ r. ok (record { count = 1; elements = r.0 }, r.1) in
      ap (λ o. o >>= whole) (expand_list_elements-one_chain count els w)
      ∙ bind_assoc (expand_elements sys els w) (λ r. ok (element_of count r.0 ∷ [], r.1)) whole

  execute_list-one_chain :
      (count : ℕ) (els : List AndOrElement) (w : World)
      → execute_list sys (one_chain count els) w
        ≡ (expand_elements sys els w >>= λ r. andor_loop sys r.0 0 r.1)
  unfolding execute_list list_elements_loop execute_element execute_andor
  execute_list-one_chain count els w =
      let m = expand_elements sys els w in
      ap (λ o. o >>= λ r. list_elements_loop sys r.0.elements 0 r.1)
        (expand_list-one_chain count els w)
      ∙ bind_assoc m _ _
      ∙ bind_ext m _ _ (λ r. bind-ok (andor_loop sys r.0 0 r.1))

  expand_elements-first :
      {B : Type 0} (el : AndOrElement) (els : List AndOrElement) (w : World)
      (g : List AndOrElement × World → Outcome B)
      → (expand_elements sys (el ∷ els) w >>= g) ≡ (
          expand_pipeline sys el.pipeline w >>= λ r.
          expand_elements sys els r.1 >>= λ r'. g (record el { pipeline = r.0 } ∷ r'.0, r'.1))
  unfolding expand_elements
  expand_elements-first el els w g =
      bind_assoc (expand_pipeline sys el.pipeline w) _ g
      ∙ bind_ext (expand_pipeline sys el.pipeline w) _ _
          (λ r. bind_assoc (expand_elements sys els r.1) _ g)

  or_tree_runs_nothing :
      (p q : PipelineLine) (ps : List (Connective × PipelineLine)) (w : World)
      → execute_list sys (line_tree (or_line p q ps)) w
        ≡ (expand_list sys (line_tree (or_line p q ps)) w >>= λ r. ok (0, r.1))
  unfolding andor_loop returns_at
  or_tree_runs_nothing p q ps w =
      let el : AndOrElement = record { pipeline = pipeline_tree p; op = and_or } in
      let els = connected_elements (pipeline_tree q) ps in
      execute_list-one_chain _ (el ∷ els) w
      ∙ expand_elements-first el els w (λ r. andor_loop sys r.0 0 r.1)
      ∙ sym (
          ap (λ o. o >>= λ r. ok (0, r.1)) (expand_list-one_chain _ (el ∷ els) w)
          ∙ bind_assoc (expand_elements sys (el ∷ els) w) _ _
          ∙ expand_elements-first el els w (λ r. ok (0, r.1)))

  and_tree_runs_both :
      (p q : PipelineLine) (w : World)
      → execute_list sys (line_tree (and_line p q)) w ≡ (
          expand_pipeline sys (pipeline_tree p) w >>= λ (p', w₁).
          expand_pipeline sys (pipeline_tree q) w₁ >>= λ (q', w₂).
          execute_pipeline p' w₂ >>= λ (status, w₃). execute_pipeline q' w₃)
  unfolding andor_loop returns_at expand_elements
  and_tree_runs_both p q w =
      let elp : AndOrElement = record { pipeline = pipeline_tree p; op = and_and } in
      let elq : AndOrElement = record { pipeline = pipeline_tree q; op = and_none } in
      execute_list-one_chain _ (elp ∷ elq ∷ []) w
      ∙ expand_elements-first elp (elq ∷ []) w (λ r. andor_loop sys r.0 0 r.1)
      ∙ bind_ext (expand_pipeline sys (pipeline_tree p) w) _ _ (λ (p', w₁).
        expand_elements-first elq [] w₁
          (λ r'. andor_loop sys (record elp { pipeline = p' } ∷ r'.0) 0 r'.1)
        ∙ bind_ext (expand_pipeline sys (pipeline_tree q) w₁) _ _ (λ (q', w₂).
          bind_ext (execute_pipeline p' w₂) _ _ (λ (status, w₃). bind-ok (execute_pipeline q' w₃))))

module _ ⦃alloc : Allocator⦄ ⦃words : WholeWords alloc⦄ (sys : Services) where
  open sys use {World, execute_pipeline}

  pub or_line_runs_nothing :
      (p q : PipelineLine) (ps : List (Connective × PipelineLine)) (e : Token) (s : TokenStream)
      → Left s (line_tokens (or_line p q ps)) e
      → SmallLine (or_line p q ps)
      → (tree : ShellList) × (s' : TokenStream) × (parse_list s ≡ ok (tree, s'))
        × ((w : World) → execute_list sys tree w ≡ (expand_list sys tree w >>= λ r. ok (0, r.1)))
  or_line_runs_nothing p q ps e s l small =
      let (s', parsed, _) = parse_list-line_tokens (or_line p q ps) e s l small in
      (line_tree (or_line p q ps), s', parsed, or_tree_runs_nothing sys p q ps)

  pub and_line_runs_both :
      (p q : PipelineLine) (e : Token) (s : TokenStream)
      → Left s (line_tokens (and_line p q)) e
      → SmallLine (and_line p q)
      → (tree : ShellList) × (s' : TokenStream) × (parse_list s ≡ ok (tree, s'))
        × ((w : World)
            → execute_list sys tree w ≡ (
                expand_pipeline sys (pipeline_tree p) w >>= λ (p', w₁).
                expand_pipeline sys (pipeline_tree q) w₁ >>= λ (q', w₂).
                execute_pipeline p' w₂ >>= λ (status, w₃). execute_pipeline q' w₃))
  and_line_runs_both p q e s l small =
      let (s', parsed, _) = parse_list-line_tokens (and_line p q) e s l small in
      (line_tree (and_line p q), s', parsed, and_tree_runs_both sys p q)
