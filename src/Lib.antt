-- ===== src/Lib.antt =====
-- A model of a small POSIX-like shell written in C, and what is proved of it.
--
-- A line of text is turned into tokens by the lexer (src/lexer.c), the tokens into a tree by the
-- parser (src/parser.c), and the tree is expanded and run by the executor (src/exec.c).
--
-- - Common: Boolean tests, lists over native numbers, bytes, and `Outcome`, the result of code
--   that can fault or end the process. A fault is undefined behaviour in C: a null pointer is read,
--   or a block is left.
-- - Tokens: src/tokenlist.c. `TokenList` is the counted list, `tokenlist_append` and the others
--   are the functions of the same name.
-- - Lexer: src/lexer.c. Lexer/Stream is the character stream `cs_*`, Lexer/Scan is `lx_scan` with
--   one function per branch of its loop, Lexer/Tokenize is `lx_token` and `lx_tokenize`. Lexer/Words,
--   Lexer/Signs, Lexer/Blanks and Lexer/Lexemes describe words, operators, white space and the
--   lexemes of a line independently of the scanner, and Lexer/Written a line that is written with
--   them.
-- - Syntax: the trees of src/parsetypes.h.
-- - Parser: src/parser.c. Parser/Stream is the token stream `ts_*` of src/parsetypes.c,
--   Parser/Vectors is `ArgVector` and `RedirVec` with the sizes of their blocks in bytes,
--   Parser/Parse is the recursive descent up to `lex_and_parse`; Parser/Grammar is an independent
--   description of the lines that the parser is for; Parser/Splitting is the older functions that
--   count and split lists of tokens. Parser/NextToken is
--   `next_token` and `exppass`. Parser/Whole goes from the text of a line to its tree. How many bytes
--   of a block of `malloc` can be used is a parameter, `Allocator`; `WholeWords` is what the parser
--   relies on, and Parser/Overrun is about an allocator that gives what was asked for.
-- - Exec: src/exec.c. Exec/Services is what the executor calls to expand a word, to assign a
--   variable and to run a pipeline, a parameter whose calls may fault, end the shell or not come back;
--   Exec/Expansion and Exec/Execute are the functions
--   that walk over the tree. Exec/Repl is the rounds of the loop of `repl`, Exec/Sessions what they do
--   with the lines of a session.
-- - Expand: src/expand.c. Expand/Word is `expand_word`, over the builder with its
--   block, and Expand/Plain is about words with nothing to expand; what a command substitution
--   prints, if it ends, is a parameter. Expand/Older is `exptok`,
--   Expand/Strings `expand_string` and `expand_home`.
-- - StringBuilder: src/stringbuilder.c, with its block of memory byte by byte; StringBuilder/Laws says where the block holds that text.
-- - Exec/Process: pipelines and commands of src/exec.c as the system calls of the shell and of its
--   children; Exec/Descriptors says what the calls do to a table of descriptors.
--   Exec/Assignments joins assignments to the variables. The pipes, files, processes and programs that
--   the system gives, or does not give, are parameters.
-- - Builtins: src/builtins.c, and `find_builtin` of src/exec.c. Builtins/History is `history`, `jobs` and
--   `exit`; the other commands are in Builtins/Commands.
-- - Hashtable: src/hashtable.c. Hashtable/Buckets is the chains `blist_*` and the hash,
--   Hashtable/Table is `ht_*`, Hashtable/Items is `il_*` and the entry set.
-- - Vars: src/vars.c, the variables over that table, and `assignment_split` of src/parser.c.
-- - Path: src/wordlist.c and src/path.c; the system's test of a file is a parameter.
-- - Jobs: src/jobs.c. Jobs/JobTable is the list of jobs and their numbers, Jobs/Printing how they are
--   listed and reaped, Jobs/Joining the text of a chain.
-- - Completion: src/completion.c. Completion/Registry is the registry of completion scripts,
--   Completion/Words the words of the line and the generator of built-in commands, Completion/Paths
--   the generator of the programs of PATH, Completion/FirstWord the generator of the first word, and
--   Completion/Complete the generator that runs a script and the function that readline calls.
--   Completion/Offers says what the calls of a generator give, one after the other.
--
-- Fuel: a loop of the lexer gets one unit more than the text has bytes, a loop of the parser one
-- more than the stream has tokens; that is enough, as each round takes a byte or a token
-- (Lexer/Progress, Lexer/Total, Parser/Total). `ht_put` calls itself when it resizes, 30 deep at
-- most: each resize doubles the capacity, which stays below 2^30 (Hashtable/Grows). `blist_copyof`
-- takes the rounds of its loop as an argument. `expand_word` gets one unit more than the word has
-- bytes, as each round takes a byte. The growth of a builder's block gets 64 rounds, as each doubles a 64-bit
-- size. The search for a built-in command gets as many rounds as there are commands, of which each
-- round leaves at most half. `get_next_job_number` tries one number more than there are jobs, and
-- `print_jobs` has one round more. The loops over the words of the line have one round more than
-- the line has bytes: where a loop needs more it stands still at the end of the line. `exptok` has one
-- round more than the word has bytes, and the search of `expand_string` one more than the text.
--
-- Machine integers: positions and counters are `size_t` values bounded by the length of a line,
-- which do not wrap; where the code subtracts on them the wrap-around is written out. A status is
-- the 32-bit pattern of an `int`.
--
-- Not modelled: the addresses of blocks, and so the functions that make and free the nodes of a tree;
-- `sb_format`; the messages of the executor; `execute_andor_bg` and `expand_token`. What fork, exec, wait, pipe and open do is left to the system, whose
-- answers are parameters, as are the directories, files and scripts that completion and history
-- read. readline's own work is left out: its line while jobs are reaped, its prompt, and when it
-- calls the generators. Left out as well are the start of `main`, the installing of the signal handler,
-- `print_job_exit`, `prepare_args` and `exec_pipe`, which nothing calls, and functions that return at once.
pub mod Common
pub mod Tokens
pub mod Lexer
pub mod Syntax
pub mod Parser
pub mod Exec
pub mod Builtins
pub mod Completion
pub mod Expand
pub mod Hashtable
pub mod Jobs
pub mod Path
pub mod StringBuilder
pub mod Vars
