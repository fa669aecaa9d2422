-- ===== src/Queue/Enqueue.antt =====
-- The idempotency keys of `enqueue_task` (app/orchestrator/queue.py).
