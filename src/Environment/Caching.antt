-- ===== src/Environment/Caching.antt =====
-- The size of the write cache of src/posix/utils/cache.hpp, which an environment variable sets.
