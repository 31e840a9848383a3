-- ===== src/Cloud/Server/Concurrent/Linear.antt =====
-- Beside each other the handlers do what they do one after the other.
use wisp_shell.Prelude.{◌≡◌}
use wisp_shell.Protocol.Crypto.{Primitives}
use wisp_shell.Cloud.Store.Rows.{Codec}
use wisp_shell.Cloud.Store.RoundTrip.{IsKeyedDb}
use wisp_shell.Cloud.Pairing.{Serde}
use wisp_shell.Cloud.Server.Durable.{IsDurable}
use wisp_shell.Cloud.Server.Concurrent.{Serving}

module _ (c : Primitives) (k : Codec) (j : Serde) where
  -- With no save ahead, the file loads to the data.
  record IsSettled (s : Serving) : Type 0 where
    pub keyed : IsKeyedDb s.app.inner
    pub durable : s.unsaved ≡ 0 → IsDurable k s.app
