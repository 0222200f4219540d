-- ===== src/Orchestrator/Jobs/Filter.antt =====
-- What `--run` leaves out of the jobs, and what it finds.
