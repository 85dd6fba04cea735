-- ===== src/Gateway/Tests.antt =====
-- The path that the browser of a room asks for (apps/web/src/features/room/useRoomSocket.ts).
use gacha_mind.Base.{◌≡◌, ◌↔◌, ◌++◌, refl, true, some, Text, codes}
use gacha_mind.Gateway.{shard_from_url, gs_prefix}
use gacha_mind.Gateway.Shard.{Names, shard_from_url_iff}
use gacha_mind.Web.RoomSocket.Requests.{socket_url}

abbrev task : Text
task = codes "0f3a-9"

abbrev task_url : Text
task_url = codes "/gs/0f3a-9?room=1"

shard_from_url_iff_example : (shard_from_url (some task_url) ≡ some task) ↔ Names task_url task
shard_from_url_iff_example = shard_from_url_iff task_url task

-- The browser's address is its host and a path that names the process.
browser_path :
    socket_url true (codes "host") (codes "host") task ≡ codes "wss://host" ++ gs_prefix ++ task
unfolding socket_url
browser_path = refl

browser_path_names : shard_from_url (some (gs_prefix ++ task)) ≡ some task
unfolding shard_from_url
browser_path_names = refl
