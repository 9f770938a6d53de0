-- ===== src/Web/Transaction/Refinement.antt =====
-- apps/web/lib/use-transaction.ts: every run follows the diagram.
