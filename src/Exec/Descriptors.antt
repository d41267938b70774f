-- ===== src/Exec/Descriptors.antt =====
-- What system calls do to the table of the open descriptors of a process, as POSIX documents it: the
-- description against which the calls of src/exec.c are read.
use codecrafters_shell_c.Common.{
  ℕ, ◌==◌, List, [], ◌∷◌, ◌++◌, Option, none, some, if◌then◌else◌, ◌≡◌, ◌≢◌, refl, false, true,
  arith, ◌<◌,
}
use codecrafters_shell_c.Common.Bytes.{Bytes}
use codecrafters_shell_c.Exec.Process.{OpenFlags, Call, pipe, open_file, dup2, close, fork, waitpid}

-- What a descriptor stands for: an end of the pipe that was made with the descriptor of that number,
-- a file, or what the process had before.
pub data Description : Type 0 where
  before : ℕ → Description
  read_end write_end : ℕ → Description
  file : OpenFlags → Bytes → Description

abbrev pub Table : Type 0
Table = ℕ → Option Description

unfoldable pub set : ℕ → Option Description → Table → Table
set n d t fd = if fd == n then d else t fd

unfoldable pub apply : Call → Table → Table
unfolding set
apply (pipe r w) t = set w (some (write_end w)) (set r (some (read_end r)) t)
apply (open_file flags target fd) t = set fd (some (file flags target)) t
apply (dup2 a b) t = set b (t a) t
apply (close a) t = set a none t
apply (fork pid) t = t
apply (waitpid pid) t = t

unfoldable pub apply_all : List Call → Table → Table
unfolding apply
apply_all [] t = t
apply_all (c ∷ cs) t = apply_all cs (apply c t)

-- The processes that were waited for, in order.
unfoldable pub waited_for : List Call → List ℕ
waited_for [] = []
waited_for (waitpid pid ∷ cs) = pid ∷ waited_for cs
waited_for (_ ∷ cs) = waited_for cs

pub apply_all-append :
    (cs ds : List Call) (t : Table) → apply_all (cs ++ ds) t ≡ apply_all ds (apply_all cs t)
unfolding apply_all
apply_all-append [] ds t = refl
apply_all-append (c ∷ cs) ds t = apply_all-append cs ds (apply c t)

pub set-here : (n : ℕ) (d : Option Description) (t : Table) → set n d t n ≡ d
unfolding set
set-here n d t = let same : (n == n) ≡ true = ground arith in rw same refl

pub set-apart : (n fd : ℕ) (d : Option Description) (t : Table) → fd ≢ n → set n d t fd ≡ t fd
unfolding set
set-apart n fd d t h = let apart : (fd == n) ≡ false = ground (arith, h) in rw apart refl

-- The table has nothing at either end of the pipes.
abbrev pub AllClosed : Table → List (ℕ × ℕ) → Type 0
AllClosed t [] = Unit {0}
AllClosed t (p ∷ ps) = ((t p.0 ≡ none) × (t p.1 ≡ none)) × AllClosed t ps

-- Pipes have no descriptor of the standard streams.
abbrev pub AllAbove : List (ℕ × ℕ) → Type 0
AllAbove [] = Unit {0}
AllAbove (p ∷ ps) = ((2 < p.0) × (2 < p.1)) × AllAbove ps
