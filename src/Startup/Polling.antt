-- ===== src/Startup/Polling.antt =====
-- Provisioning over the GKE provider when the container API cannot be asked.
use praktikum.Runtime.{Runtime}
