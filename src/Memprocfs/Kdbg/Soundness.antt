-- ===== src/Memprocfs/Kdbg/Soundness.antt =====
-- internal/memprocfs/recover_vmm.go: what a recovery of the debugger block changes.
