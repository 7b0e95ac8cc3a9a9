-- ===== src/Dtree.antt =====
-- TLPI/inotify/inotify_dtree.c: a cache of the directory trees named on the command line, kept in
-- step with the filesystem by inotify events.
pub mod Outcome
pub mod Cache
pub mod Kernel
pub mod Roots
pub mod Watch
pub mod Stable
pub mod Event
pub mod Reader
pub mod Command
pub mod Program
