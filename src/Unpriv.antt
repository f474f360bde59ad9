-- ===== src/Unpriv.antt =====
-- pkg/unpriv: system calls that first make their path resolvable.
pub mod Os
pub mod Wrap
pub mod Calls
pub mod Trees
pub mod Modes
pub mod WalkModes
