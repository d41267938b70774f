-- ===== src/Syntax.antt =====
-- src/parsetypes.h: the syntax tree. A chain of nodes is a list, and the counters that the C
-- structures keep beside the chains are kept here too.
use codecrafters_shell_c.Common.{ℕ, List}
use codecrafters_shell_c.Common.Bytes.{Bytes}

pub data RedirMode : Type 0 where
  redir_in redir_out redir_append redir_heredoc redir_err : RedirMode

pub record Redirect : Type 0 where
  pub fd : ℕ
  pub mode : RedirMode
  pub target : Bytes

-- `argv` without the closing null pointer; `nredirs` is the length of `redirs`.
pub record Command : Type 0 where
  pub argv : List Bytes
  pub assignment_list : List Bytes
  pub redirs : List Redirect

pub record Pipeline : Type 0 where
  pub size : ℕ
  pub commands : List Command

pub data AndOrOp : Type 0 where
  and_none and_and and_or : AndOrOp

pub record AndOrElement : Type 0 where
  pub pipeline : Pipeline
  pub op : AndOrOp

pub record AndOr : Type 0 where
  pub count : ℕ
  pub elements : List AndOrElement

pub data ListSep : Type 0 where
  sep_semi sep_amp sep_none : ListSep

pub record ListElement : Type 0 where
  pub and_or : AndOr
  pub sep : ListSep

-- The C type `List`.
pub record ShellList : Type 0 where
  pub count : ℕ
  pub elements : List ListElement
