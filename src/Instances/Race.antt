-- ===== src/Instances/Race.antt =====
-- Two requests to POST frontend/app/api/instances that interleave: one is answered between the two
-- statements of the other that read the table and insert the row.
use foxplay_game.Json.{Json}
