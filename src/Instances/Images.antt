-- ===== src/Instances/Images.antt =====
-- frontend/app/api/images/route.ts: the base images, or the default one where the manager fails.
use foxplay_game.Common.{String, Option, some}
use foxplay_game.Json.{Json, str, arr, nil, cons}
use foxplay_game.Server.{M, pure, ◌>>=◌, try_catch, Response, reply, Fetched}
use foxplay_game.Server.Manager
use foxplay_game.Server.Manager.{FetchRequest}

unfoldable pub list_images :
    {S : Type 0}
    → (FetchRequest → S → Fetched × S)
    → (String → Option Json)
    → M S (Response (Option Json))
unfolding Manager.images
list_images fetch parse =
    try_catch (Manager.images fetch parse >>= λ images. pure (reply 200 images))
      (λ _. pure (reply 200 (some (arr (cons (str "alpine") nil)))))
