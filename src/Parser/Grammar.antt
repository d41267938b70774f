-- ===== src/Parser/Grammar.antt =====
-- The language of command lines, independently of the parser: what a line is, the tokens it is
-- written with, and the syntax tree (src/parsetypes.h) that stands for it.
use codecrafters_shell_c.Common.{
  ℕ, ◌==◌, if◌then◌else◌, ◌≤◌, ◌≢◌, ◌+◌, List, [], ◌∷◌, ◌++◌, map, length,
}
use codecrafters_shell_c.Common.Bytes.{Bytes, bytes}
use codecrafters_shell_c.Tokens.{
  TokenType, tok_word, tok_assignment_word, tok_pipe, tok_and, tok_or, tok_semi, tok_amp,
  tok_redir_in, tok_redir_out, tok_redir_append, tok_redir_heredoc, tok_err, Token, newtok,
  token_new,
}
use codecrafters_shell_c.Syntax.{
  RedirMode, redir_in, redir_out, redir_append, redir_heredoc, redir_err, Redirect, Command,
  Pipeline, AndOrOp, and_none, and_and, and_or, AndOrElement, AndOr, ListSep, sep_semi, sep_amp,
  sep_none, ListElement, ShellList,
}

-- The operators of a line, by the choice that each stands for.
pub record PipelineLine : Type 0 where
  pub first : Command
  pub others : List Command

pub data Connective : Type 0 where
  conj disj : Connective

pub record AndOrLine : Type 0 where
  pub first : PipelineLine
  pub others : List (Connective × PipelineLine)

pub data Separator : Type 0 where
  semi amp : Separator

pub record Line : Type 0 where
  pub first : AndOrLine
  pub others : List (Separator × AndOrLine)

abbrev pub redir_type : RedirMode → TokenType
redir_type redir_in = tok_redir_in
redir_type redir_out = tok_redir_out
redir_type redir_append = tok_redir_append
redir_type redir_heredoc = tok_redir_heredoc
redir_type redir_err = tok_err

abbrev pub redir_operator : RedirMode → Bytes
redir_operator redir_in = bytes "<"
redir_operator redir_out = bytes ">"
redir_operator redir_append = bytes ">>"
redir_operator redir_heredoc = bytes "<<"
redir_operator redir_err = []

-- The descriptor that an operator without a digit stands for.
abbrev pub usual_fd : RedirMode → ℕ
usual_fd redir_out = 1
usual_fd redir_append = 1
usual_fd _ = 0

-- A descriptor that is not the usual one is a digit in front of the operator.
abbrev pub redir_text : RedirMode → ℕ → Bytes
redir_text mode fd =
    if fd == usual_fd mode then redir_operator mode else (b'0' + fd) ∷ redir_operator mode

abbrev pub redirect_tokens : List Redirect → List Token
redirect_tokens [] = []
redirect_tokens (r ∷ rs) =
    token_new (redir_type r.mode) (redir_text r.mode r.fd) r.fd
    ∷ newtok tok_word r.target
    ∷ redirect_tokens rs

-- The assignments, the words, the redirections.
abbrev pub command_tokens : Command → List Token
command_tokens c =
    map (newtok tok_assignment_word) c.assignment_list
    ++ (map (newtok tok_word) c.argv ++ redirect_tokens c.redirs)

abbrev pub piped_tokens : List Command → List Token
piped_tokens [] = []
piped_tokens (c ∷ cs) = newtok tok_pipe (bytes "|") ∷ (command_tokens c ++ piped_tokens cs)

abbrev pub pipeline_tokens : PipelineLine → List Token
pipeline_tokens p = command_tokens p.first ++ piped_tokens p.others

abbrev pub connective_token : Connective → Token
connective_token conj = newtok tok_and (bytes "&&")
connective_token disj = newtok tok_or (bytes "||")

abbrev pub connected_tokens : List (Connective × PipelineLine) → List Token
connected_tokens [] = []
connected_tokens ((op, p) ∷ ps) = connective_token op ∷ (pipeline_tokens p ++ connected_tokens ps)

abbrev pub and_or_tokens : AndOrLine → List Token
and_or_tokens a = pipeline_tokens a.first ++ connected_tokens a.others

abbrev pub separator_token : Separator → Token
separator_token semi = newtok tok_semi (bytes ";")
separator_token amp = newtok tok_amp (bytes "&")

abbrev pub separated_tokens : List (Separator × AndOrLine) → List Token
separated_tokens [] = []
separated_tokens ((sep, a) ∷ as') = separator_token sep ∷ (and_or_tokens a ++ separated_tokens as')

abbrev pub line_tokens : Line → List Token
line_tokens l = and_or_tokens l.first ++ separated_tokens l.others

-- The trees. An operator stands in the element to its left, and the last element has none.
abbrev pub pipeline_tree : PipelineLine → Pipeline
pipeline_tree p = record { size = length p.others + 1; commands = p.first ∷ p.others }

abbrev pub connective_op : Connective → AndOrOp
connective_op conj = and_and
connective_op disj = and_or

abbrev pub connected_elements : Pipeline → List (Connective × PipelineLine) → List AndOrElement
connected_elements p [] = record { pipeline = p; op = and_none } ∷ []
connected_elements p ((op, q) ∷ qs) =
    record { pipeline = p; op = connective_op op } ∷ connected_elements (pipeline_tree q) qs

abbrev pub and_or_tree : AndOrLine → AndOr
and_or_tree a = record {
  count = length a.others + 1;
  elements = connected_elements (pipeline_tree a.first) a.others;
}

abbrev pub separator_sep : Separator → ListSep
separator_sep semi = sep_semi
separator_sep amp = sep_amp

abbrev pub separated_elements : AndOr → List (Separator × AndOrLine) → List ListElement
separated_elements a [] = record { and_or = a; sep = sep_none } ∷ []
separated_elements a ((sep, b) ∷ bs) =
    record { and_or = a; sep = separator_sep sep } ∷ separated_elements (and_or_tree b) bs

abbrev pub line_tree : Line → ShellList
line_tree l = record {
  count = length l.others + 1;
  elements = separated_elements (and_or_tree l.first) l.others;
}

-- What the vectors of `parse_command` have room for, and redirections of a known mode.
abbrev pub Known : List Redirect → Type 0
Known [] = Unit {0}
Known (r ∷ rs) = (r.mode ≢ redir_err) × Known rs

pub record IsSmall (c : Command) : Type 0 where
  pub few_args : length c.argv ≤ 16
  pub few_redirs : length c.redirs ≤ 16
  pub known : Known c.redirs

abbrev pub AllSmall : List Command → Type 0
AllSmall [] = Unit {0}
AllSmall (c ∷ cs) = IsSmall c × AllSmall cs

abbrev pub SmallPipeline : PipelineLine → Type 0
SmallPipeline p = IsSmall p.first × AllSmall p.others

abbrev pub AllSmallPipelines : List (Connective × PipelineLine) → Type 0
AllSmallPipelines [] = Unit {0}
AllSmallPipelines ((op, p) ∷ ps) = SmallPipeline p × AllSmallPipelines ps

abbrev pub SmallAndOr : AndOrLine → Type 0
SmallAndOr a = SmallPipeline a.first × AllSmallPipelines a.others

-- Behind a separator something must be written, or the parser takes the line to end there.
abbrev pub AllSmallAndOrs : List (Separator × AndOrLine) → Type 0
AllSmallAndOrs [] = Unit {0}
AllSmallAndOrs ((sep, a) ∷ as') = SmallAndOr a × (and_or_tokens a ≢ []) × AllSmallAndOrs as'

abbrev pub SmallLine : Line → Type 0
SmallLine l = SmallAndOr l.first × AllSmallAndOrs l.others
