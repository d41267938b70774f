-- ===== src/Exec/Tests.antt =====
-- src/exec.c: the theorems at concrete services, a world that is the list of the commands run.
use codecrafters_shell_c.Parser.Parse.{Allocator, WholeWords}
use codecrafters_shell_c.Common.{◌*◌, ◌+◌, ◌/◌}
use codecrafters_shell_c.Common.Outcome.{Outcome, fault, ◌>>=◌}
use codecrafters_shell_c.Common.{ℕ, ◌≡◌, refl, List, [], ◌∷◌, ◌++◌, length, arith}
use codecrafters_shell_c.Common.Bytes.{Bytes, bytes}
use codecrafters_shell_c.Common.Outcome.{ok}
use codecrafters_shell_c.Tokens.{Token, tok_eof, newtok}
use codecrafters_shell_c.Syntax.{Command, ShellList}
use codecrafters_shell_c.Parser.Stream.{TokenStream}
use codecrafters_shell_c.Parser.Parse.{parse_list}
use codecrafters_shell_c.Parser.Grammar.{IsSmall, PipelineLine, line_tokens, pipeline_tree}
use codecrafters_shell_c.Exec.Services.{Services}
use codecrafters_shell_c.Exec.Expansion.{expand_list, expand_pipeline}
use codecrafters_shell_c.Exec.Execute.{execute_list}
use codecrafters_shell_c.Exec.Chains.{or_line, and_line, or_line_runs_nothing, and_line_runs_both}

-- Blocks of whole words.
instance abbrev in_words : Allocator
in_words = record { usable = λ n. 8 * ((n + 7) / 8) }

instance abbrev words : WholeWords in_words
words = record { words_fit = λ n. omega arith }

-- The words of the first command that runs are logged, and `false` alone fails.
abbrev log_pipeline : List Command → List (List Bytes) → Outcome (ℕ × List (List Bytes))
log_pipeline [] w = fault
log_pipeline (c ∷ cs) w = ok (length c.redirs, w ++ c.argv ∷ [])

abbrev logging : Services
logging = record {
  World = List (List Bytes);
  expand_word = λ word w. ok (word, w);
  execute_assignment = λ word w. ok (w ++ (word ∷ []) ∷ []);
  execute_pipeline = λ p w. log_pipeline p.commands w;
  execute_andor_bg = λ a w. ok (0, w);
}

abbrev run_true : PipelineLine
run_true = record {
  first = record { argv = bytes "true" ∷ []; assignment_list = []; redirs = [] };
  others = [];
}

true-IsSmall : IsSmall run_true.first
true-IsSmall = record { few_args = omega arith; few_redirs = omega arith; known = tt }

abbrev eof : Token
eof = newtok tok_eof []

abbrev or_stream : TokenStream
or_stream = record {
  len = 4;
  pos = 0;
  tokens = line_tokens (or_line run_true run_true []) ++ eof ∷ [];
}

abbrev and_stream : TokenStream
and_stream = record {
  len = 4;
  pos = 0;
  tokens = line_tokens (and_line run_true run_true) ++ eof ∷ [];
}

or_line_runs_nothing_example :
    (tree : ShellList) × (s' : TokenStream) × (parse_list or_stream ≡ ok (tree, s'))
    × ((w : List (List Bytes))
        → execute_list logging tree w ≡ (expand_list logging tree w >>= λ r. ok (0, r.1)))
or_line_runs_nothing_example =
    or_line_runs_nothing logging run_true run_true [] eof or_stream
      (record { left = refl; sized = refl; last = refl })
      (((true-IsSmall, tt), ((true-IsSmall, tt), tt)), tt)

and_line_runs_both_example :
    (tree : ShellList) × (s' : TokenStream) × (parse_list and_stream ≡ ok (tree, s'))
    × ((w : List (List Bytes))
        → execute_list logging tree w ≡ (
            expand_pipeline logging (pipeline_tree run_true) w >>= λ (p', w₁).
            expand_pipeline logging (pipeline_tree run_true) w₁ >>= λ (q', w₂).
            logging.execute_pipeline p' w₂ >>= λ (status, w₃). logging.execute_pipeline q' w₃))
and_line_runs_both_example =
    and_line_runs_both logging run_true run_true eof and_stream
      (record { left = refl; sized = refl; last = refl })
      (((true-IsSmall, tt), ((true-IsSmall, tt), tt)), tt)
