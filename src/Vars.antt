-- ===== src/Vars.antt =====
-- src/vars.c, with `assignment_split` of src/parser.c: the shell's variables. The file's static
-- pointer to the table is a state that is passed on; `none` is the null pointer that it starts as.
pub mod Store
pub mod Laws
mod Tests
