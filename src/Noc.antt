-- ===== src/Noc.antt =====
-- kernel/noc: the language's function registry and virtual machine.
pub mod Registry
pub mod Alu
pub mod Vm
pub mod Lexer
pub mod Interact
